-- ===== src/Bus.antt =====
-- pkg/bus/bus.go: publishing on NATS JetStream. The connection is an interface: what it has
-- stored, and a publish that may fail: after an error the message may be stored or not, since the
-- acknowledgement may be lost. Messages stand for their JSON.
use goosed.Support.{
  ℕ, zero, suc, ◌≡◌, refl, List, [], ◌∷◌, ◌++◌, ◌⊎◌, inl, inr, Option, none, some, Bool, true, not,
  Bool-cases, if◌then◌else◌,
}
use goosed.Support.Results.{Result, ok, err, ok_ne_err}

pub data BusError : Type 0 where
  nil_bus : BusError
  nats_error : ℕ → BusError

pub record JetStream (Message : Type 0) : Type 1 where
  pub State : Type 0
  pub sent : State → List Message
  -- js.Publish of the encoded message, a failure of json.Marshal included
  pub js_publish : Message → State → Result BusError (Unit {0}) × State
  pub publish_ok :
      (m : Message) (s : State) (u : Unit {0})
      → (js_publish m s).0 ≡ ok u
      → sent (js_publish m s).1 ≡ sent s ++ m ∷ []
  pub publish_err :
      (m : Message) (s : State) (e : BusError)
      → (js_publish m s).0 ≡ err e
      → (sent (js_publish m s).1 ≡ sent s) ⊎ (sent (js_publish m s).1 ≡ sent s ++ m ∷ [])

-- A connection that accepts everything but while `down` of its state is set, for tests; an error
-- with an even code is a lost acknowledgement, whose message was stored.
pub record Wire (Message : Type 0) : Type 0 where
  pub messages : List Message
  pub down : Option ℕ

abbrev pub even : ℕ → Bool
even zero = true
even (suc n) = not (even n)

abbrev pub wire_publish :
    {Message : Type 0}
    → Option ℕ
    → Message
    → Wire Message
    → Result BusError (Unit {0}) × Wire Message
wire_publish none m w = (ok tt, record w { messages = w.messages ++ m ∷ [] })
wire_publish (some e) m w =
    (err (nats_error e), if even e then record w { messages = w.messages ++ m ∷ [] } else w)

pub wire_ok :
    {Message : Type 0} (d : Option ℕ) (m : Message) (w : Wire Message) (u : Unit {0})
    → (wire_publish d m w).0 ≡ ok u
    → (wire_publish d m w).1.messages ≡ w.messages ++ m ∷ []
wire_ok none m w u h = refl
wire_ok (some e) m w u h = absurd (cc)

pub wire_err :
    {Message : Type 0} (d : Option ℕ) (m : Message) (w : Wire Message) (e : BusError)
    → (wire_publish d m w).0 ≡ err e
    → ((wire_publish d m w).1.messages ≡ w.messages)
      ⊎ ((wire_publish d m w).1.messages ≡ w.messages ++ m ∷ [])
wire_err none m w e h = ok_ne_err h
wire_err (some n) m w e h = elim (Bool-cases (even n)) [
  | inl y ↦ inr (rw y refl)
  | inr n ↦ inl (rw n refl)
]

abbrev pub wire : (Message : Type 0) → JetStream Message
wire Message = record {
  State = Wire Message;
  sent = λ w. w.messages;
  js_publish = λ m w. wire_publish w.down m w;
  publish_ok = λ m w. wire_ok w.down m w;
  publish_err = λ m w. wire_err w.down m w;
}
