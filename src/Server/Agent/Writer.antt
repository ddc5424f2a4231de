-- ===== src/Server/Agent/Writer.antt =====
-- src/server/agent.rs: the task `writer`, which drains the frames that were handed over.
use pi_piper.Prelude.{Bool, false, true, List, [], ◌∷◌, if◌then◌else◌}
use pi_piper.Rpc.RemoteAgent.{Message}
use pi_piper.Server.Ws.{Sink}

module _ {S : Type 0} ⦃sink : Sink S⦄ where
  -- The messages are what `rx.recv` yields, and the Boolean is whether the loop has ended.
  unfoldable pub write_outbound : List Message → S → S × Bool
  write_outbound [] s = (s, false)
  write_outbound (message ∷ rest) s =
      let (sent, s') = sink.send message s in
      let more = write_outbound rest s' in if sent then more else (s', true)
