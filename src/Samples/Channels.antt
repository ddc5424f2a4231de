-- ===== src/Samples/Channels.antt =====
-- A watch that counts its receivers, a reader and a sink over plain text, and a socket that accepts
-- a number of sends.
use pi_piper.Prelude.{
  ℕ, suc, ◌-◌, ◌<◌, ◌≡◌, refl, Bool, true, false, List, ◌∷◌, arith, nat_eq, if◌then◌else◌,
}
use pi_piper.Watch.{Watch}
use pi_piper.Rpc.RemoteAgent.{Message}
use pi_piper.Server.Ws.{Sink}

pub record Cell : Type 0 where
  pub value : Bool
  pub receivers : ℕ

abbrev cell_send : Bool → Cell → Cell
cell_send b c = if nat_eq c.receivers 0 then c else record c { value = b }

pub cell_send_closed : (b : Bool) (c : Cell) → c.receivers ≡ 0 → cell_send b c ≡ c
cell_send_closed b c h = ground arith

pub cell_borrow-send : (b : Bool) (c : Cell) → 0 < c.receivers → (cell_send b c).value ≡ b
cell_borrow-send b c h = ground arith

pub cell_count-send : (b : Bool) (c : Cell) → (cell_send b c).receivers ≡ c.receivers
cell_count-send b c = ground arith

instance abbrev pub cell_watch : Watch Cell
cell_watch = record {
  channel = λ b. record { value = b; receivers = 0 };
  send = cell_send;
  subscribe = λ c. record c { receivers = suc c.receivers };
  release = λ c. record c { receivers = c.receivers - 1 };
  borrow = λ c. c.value;
  receiver_count = λ c. c.receivers;
  borrow-channel = λ b. refl;
  receiver_count-channel = λ b. refl;
  send_closed = cell_send_closed;
  borrow-send = cell_borrow-send;
  receiver_count-send = cell_count-send;
  borrow-subscribe = λ c. refl;
  receiver_count-subscribe = λ c. refl;
  borrow-release = λ c. refl;
  receiver_count-release = λ c. refl;
}

-- What a socket was sent, newest first, and how many more sends it accepts.
pub record Socket : Type 0 where
  pub sent : List Message
  pub room : ℕ

abbrev socket_send : Message → Socket → Bool × Socket
socket_send m s =
    if nat_eq s.room 0 then (false, s) else (true, record { sent = m ∷ s.sent; room = s.room - 1 })

instance abbrev pub socket_sink : Sink Socket
socket_sink = record { send = socket_send }
