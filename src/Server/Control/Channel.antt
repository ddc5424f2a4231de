-- ===== src/Server/Control/Channel.antt =====
-- src/registry.rs: the control channel, a broadcast channel of its own capacity.
use pi_piper.Prelude.{ℕ}
use pi_piper.Broadcast.{Polled, got, missed}
use pi_piper.Events.{ControlEvent}
use pi_piper.Server.Control.{Recv, received, lagged}

-- `CONTROL_CHANNEL_CAPACITY`
abbrev pub control_channel_capacity : ℕ
control_channel_capacity = 256

-- What the match of the handler sees of a result of `recv`.
abbrev pub recv_of : Polled ControlEvent → Recv
recv_of (got event) = received event
recv_of missed = lagged
