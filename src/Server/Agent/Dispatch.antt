-- ===== src/Server/Agent/Dispatch.antt =====
-- src/server/agent.rs: the cases of one message of a connection.
use pi_piper.Prelude.{
  ℤ, String, ◌≡◌, false, Option, none, some, ◌==◌, eq_iff, Bool-cases, Option-cases, inl, inr,
}
use pi_piper.Json.{Json}
use pi_piper.Watch.{Watch}
use pi_piper.Preview.{str_field}
use pi_piper.Registry.{update_meta, publish}
use pi_piper.Rpc.RemoteAgent.{Message, text, close, other}
use pi_piper.Server.Agent.{
  World, Connection, when_both, register_with, dispatch, on_frame, on_message,
}

-- A type of a frame that the handler skips.
pub record IsSkipped (ty : String) : Type 0 where
  pub no_register : (ty == "register") ≡ false
  pub no_meta_update : (ty == "meta_update") ≡ false
  pub no_event : (ty == "event") ≡ false
  pub no_response : (ty == "response") ≡ false

module _ {V W : Type 0} ⦃json : Json V⦄ ⦃watch : Watch W⦄ where
  -- What holds of each kind of frame holds of every frame.
  pub record DispatchCases (P : Option String → Connection × World V W → Type 0) (now : ℤ)
      (frame : V) (connection : Connection) (world : World V W) : Type 0 where
    pub untyped : P none (connection, world)
    pub registering :
        P
          (some "register")
          (register_with (str_field frame "sessionId") now frame (connection, world))
    pub patching :
        P
          (some "meta_update")
          (connection, when_both connection.session_id (json.get frame "patch") update_meta world)
    pub publishing_event :
        P
          (some "event")
          (connection, when_both connection.session_id (json.get frame "event") publish world)
    pub publishing_response :
        P
          (some "response")
          (connection, when_both connection.session_id (json.get frame "response") publish world)
    pub skipping : (ty : String) → IsSkipped ty → P (some ty) (connection, world)

  dispatch_ind :
      (P : Option String → Connection × World V W → Type 0) (o : Option String) (now : ℤ)
      (frame : V) (connection : Connection) (world : World V W)
      → DispatchCases P now frame connection world
      → P o (dispatch o now frame (connection, world))
  dispatch_ind P none now frame connection world h = h.untyped
  dispatch_ind P (some ty) now frame connection world h = elim (Bool-cases (ty == "register")) [
    | inl e ↦ rw ((eq_iff ty "register").0 e) h.registering
    | inr e ↦ elim (Bool-cases (ty == "meta_update")) [
      | inl f ↦ rw ((eq_iff ty "meta_update").0 f) h.patching
      | inr f ↦ elim (Bool-cases (ty == "event")) [
        | inl g ↦ rw ((eq_iff ty "event").0 g) h.publishing_event
        | inr g ↦ elim (Bool-cases (ty == "response")) [
          | inl r ↦ rw ((eq_iff ty "response").0 r) h.publishing_response
          | inr r ↦
              rw (e, f, g, r)
                (h.skipping ty
                  (record { no_register = e; no_meta_update = f; no_event = g; no_response = r }))
        ]
      ]
    ]
  ]

  -- The same of a message, of which a frame is read if it is a text of JSON.
  pub on_message_ind :
      (P : Message → Connection × World V W → Type 0)
      (Q : Option String → V → Connection × World V W → Type 0) (now : ℤ) (message : Message)
      (connection : Connection) (world : World V W)
      → P close (connection, world)
      → P other (connection, world)
      → ((body : String) → json.from_str body ≡ none → P (text body) (connection, world))
      → ((body : String) (frame : V) (after : Connection × World V W)
          → json.from_str body ≡ some frame
          → Q (str_field frame "type") frame after
          → P (text body) after)
      → ((frame : V) → DispatchCases (λ o. Q o frame) now frame connection world)
      → P message (on_message now message (connection, world))
  unfolding on_message on_frame
  on_message_ind P Q now close connection world p q r s h = p
  on_message_ind P Q now other connection world p q r s h = q
  on_message_ind P Q now (text body) connection world p q r s h =
      elim (Option-cases (json.from_str body)) [
        | inl e ↦ rw e (r body e)
        | inr (frame, e) ↦ rw e (
            s body frame _ e (
              dispatch_ind (λ o. Q o frame) (str_field frame "type") now frame connection world
                (h frame)))
      ]
