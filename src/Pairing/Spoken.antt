-- ===== src/Pairing/Spoken.antt =====
-- What the TV says in a pairing, and what `PairingFlow` makes of it.
use mathlib.Core.Path.{subst}
use atv.Base.{
  ◌≡◌, refl, sym, ap, Bool, true, false, Option, none, some, List, [], ◌∷◌, is_some, arith,
}
use atv.Base.Exec.{ok}
use atv.Proto.Polo.{OuterMessage, status_ok}
use atv.World.{Env}
use atv.World.Chat.{Chats, over, heard}
use atv.Pairing.{PairingFlow, new, handle, options_message, configuration_message}

abbrev pub is_shown : PairingFlow → Bool
is_shown flow = flow.awaiting_code

-- The TV's four messages: it acknowledges the request, sends its options, acknowledges the
-- configuration, and takes the secret. A message may have more fields, as long as none of the
-- earlier ones.
pub record IsAck (m : OuterMessage) : Type 0 where
  pub is_ok : m.status ≡ status_ok
  pub has_ack : is_some m.pairing_request_ack ≡ true

pub record IsOptions (m : OuterMessage) : Type 0 where
  pub is_ok : m.status ≡ status_ok
  pub no_ack : is_some m.pairing_request_ack ≡ false
  pub has_options : is_some m.options ≡ true

pub record IsConfigured (m : OuterMessage) : Type 0 where
  pub is_ok : m.status ≡ status_ok
  pub no_ack : is_some m.pairing_request_ack ≡ false
  pub no_options : is_some m.options ≡ false
  pub has_configuration_ack : is_some m.configuration_ack ≡ true

pub record IsTaken (m : OuterMessage) : Type 0 where
  pub is_ok : m.status ≡ status_ok
  pub no_ack : is_some m.pairing_request_ack ≡ false
  pub no_options : is_some m.options ≡ false
  pub no_configuration_ack : is_some m.configuration_ack ≡ false
  pub has_secret_ack : is_some m.secret_ack ≡ true

-- Any of the four.
pub data IsKnown (m : OuterMessage) : Type 0 where
  acks : IsAck m → IsKnown m
  offers : IsOptions m → IsKnown m
  configures : IsConfigured m → IsKnown m
  takes : IsTaken m → IsKnown m

module _ (env : Env) where
  handle-IsAck :
      (flow : PairingFlow) (m : OuterMessage)
      → IsAck m
      → handle env flow m ≡ (ok (some options_message), flow)
  unfolding handle
  handle-IsAck flow m h = ground arith

  handle-IsOptions :
      (flow : PairingFlow) (m : OuterMessage)
      → IsOptions m
      → handle env flow m ≡ (ok (some configuration_message), flow)
  unfolding handle
  handle-IsOptions flow m h = ground arith

  handle-IsConfigured :
      (flow : PairingFlow) (m : OuterMessage)
      → IsConfigured m
      → handle env flow m ≡ (ok none, record { awaiting_code = true })
  unfolding handle
  handle-IsConfigured flow m h = ground arith

  handle-IsTaken :
      (flow : PairingFlow) (m : OuterMessage) → IsTaken m → handle env flow m ≡ (ok none, flow)
  unfolding handle
  handle-IsTaken flow m h = ground arith

  -- `handle` accepts all four, whatever came before.
  pub handle-IsKnown :
      (flow : PairingFlow) (m : OuterMessage)
      → IsKnown m
      → (reply : Option OuterMessage) × ((handle env flow m).0 ≡ ok reply)
  handle-IsKnown flow m (acks h) = (some options_message, ap (λ p. p.0) (handle-IsAck flow m h))
  handle-IsKnown flow m (offers h) =
      (some configuration_message, ap (λ p. p.0) (handle-IsOptions flow m h))
  handle-IsKnown flow m (configures h) = (none, ap (λ p. p.0) (handle-IsConfigured flow m h))
  handle-IsKnown flow m (takes h) = (none, ap (λ p. p.0) (handle-IsTaken flow m h))

  abbrev shown : PairingFlow
  shown = record { awaiting_code = true }

  -- One message of the dialogue, from what `handle` makes of it.
  step :
      (flow flow' last : PairingFlow) (msg : OuterMessage) (reply : Option OuterMessage)
      (msgs : List OuterMessage) (replies : List (Option OuterMessage))
      → flow.awaiting_code ≡ false
      → handle env flow msg ≡ (ok reply, flow')
      → Chats is_shown (handle env) flow' msgs replies last
      → Chats is_shown (handle env) flow (msg ∷ msgs) (reply ∷ replies) last
  step flow flow' last msg reply msgs replies open_ e rest =
      heard flow last msg reply msgs replies open_ (ap (λ p. p.0) e)
        (subst (λ f. Chats is_shown (handle env) f msgs replies last) (sym (ap (λ p. p.1) e)) rest)

  -- The TV's first three messages are answered by the options and the configuration, and then the
  -- code is shown.
  pub opening-Chats :
      (ack offered configured : OuterMessage)
      → IsAck ack
      → IsOptions offered
      → IsConfigured configured
      → Chats is_shown
          (handle env)
          new
          (ack ∷ offered ∷ configured ∷ [])
          (some options_message ∷ some configuration_message ∷ none ∷ [])
          shown
  opening-Chats ack offered configured a o c =
      step new new shown ack _ _ _ refl (handle-IsAck new ack a) (
        step new new shown offered _ _ _ refl (handle-IsOptions new offered o) (
          step new shown shown configured _ _ _ refl (handle-IsConfigured new configured c)
            (over shown refl)))
