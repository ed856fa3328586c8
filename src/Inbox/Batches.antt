-- ===== src/Inbox/Batches.antt =====
-- What ReadReceipts of internal/app/receipts.go collects.
use go_signal.Base.{
  ℕ, ◌≡◌, refl, ap, sym, ◌∙◌, inl, inr, Bool, true, false, ◌&&◌, ◌||◌, Option, none, some, any, All,
  List, [], ◌∷◌, ◌++◌, Bytes, str_eq, str_eq→eq, str_eq_sym, ◌==◌, ==_iff, arith, Bool-cases,
}
use go_signal.Types.{Recipient}
use go_signal.Events.{Event, Message}
use go_signal.Inbox.Classify.{incoming_message}
use go_signal.Inbox.Receipts.{
  PendingReceipt, contains, with_timestamp, add_pending, queued, add_receipt, add_all,
}

-- A receipt for the message of this sender with this timestamp is in the batch.
abbrev pub covers : List PendingReceipt → Bytes → ℕ → Bool
covers [] aci t = false
covers (p ∷ ps) aci t = str_eq p.sender.aci aci && contains p.timestamps t || covers ps aci t

-- The event is another user's message of this sender with this timestamp.
abbrev pub is_message_of : Option Message → Bytes → ℕ → Bool
is_message_of none aci t = false
is_message_of (some msg) aci t = str_eq msg.envelope.sender.aci aci && msg.envelope.timestamp == t

contains-append : (ts : List ℕ) (t u : ℕ) → contains (ts ++ t ∷ []) u ≡ (contains ts u || t == u)
contains-append [] t u = ground arith
contains-append (x ∷ ts) t u = ground (arith, contains-append ts t u)

contains-with_timestamp :
    (p : PendingReceipt) (t u : ℕ)
    → contains (with_timestamp p t).timestamps u ≡ (contains p.timestamps u || t == u)
unfolding with_timestamp
contains-with_timestamp p t u = elim (Bool-cases (contains p.timestamps t)) [
  | inl h ↦ rw h (ground (arith, ==_iff t u, ap (λ (v : ℕ). contains p.timestamps v)))
  | inr h ↦ rw h (contains-append p.timestamps t u)
]

sender-with_timestamp : (p : PendingReceipt) (t : ℕ) → (with_timestamp p t).sender ≡ p.sender
unfolding with_timestamp
sender-with_timestamp p t = ground arith

or_at : (a b c d : Bool) → (a && (b || c) || d) ≡ ((a && b || d) || a && c)
or_at true true c d = refl
or_at true false true true = refl
or_at true false true false = refl
or_at true false false true = refl
or_at true false false false = refl
or_at false b c true = refl
or_at false b c false = refl

covers-add_pending :
    (ps : List PendingReceipt) (sender : Recipient) (t : ℕ) (aci : Bytes) (u : ℕ)
    → covers (add_pending ps sender t) aci u ≡ (covers ps aci u || str_eq sender.aci aci && t == u)
unfolding add_pending
covers-add_pending [] sender t aci u = ground arith
covers-add_pending (p ∷ ps) sender t aci u =
    let rest = covers-add_pending ps sender t aci u in
    elim (Bool-cases (str_eq p.sender.aci sender.aci)) [
      | inl h ↦
          let e : str_eq sender.aci aci ≡ str_eq p.sender.aci aci =
            ap (λ s. str_eq s aci) (sym (str_eq→eq p.sender.aci sender.aci h)) in
          rw (h, e, sender-with_timestamp p t, contains-with_timestamp p t u)
            (or_at (str_eq p.sender.aci aci) (contains p.timestamps u) (t == u) (covers ps aci u))
      | inr h ↦ rw h (ground (arith, rest))
    ]

covers-queued :
    (ps : List PendingReceipt) (msg : Option Message) (aci : Bytes) (t : ℕ)
    → covers (queued ps msg).0 aci t ≡ (covers ps aci t || is_message_of msg aci t)
unfolding queued
covers-queued ps none aci t = ground arith
covers-queued ps (some msg) aci t =
    covers-add_pending ps msg.envelope.sender msg.envelope.timestamp aci t

covers-add_all :
    (ps : List PendingReceipt) (evts : List Event) (aci : Bytes) (t : ℕ)
    → covers (add_all ps evts) aci t
      ≡ (covers ps aci t || any (λ evt. is_message_of (incoming_message evt) aci t) evts)
unfolding add_all add_receipt
covers-add_all ps [] aci t = ground arith
covers-add_all ps (evt ∷ evts) aci t = ground (
  arith,
  covers-add_all (queued ps (incoming_message evt)).0 evts aci t,
  covers-queued ps (incoming_message evt) aci t,
)

-- No other receipt is for the sender.
abbrev pub NotFor : Bytes → List PendingReceipt → Type 0
NotFor aci = All (λ p. str_eq p.sender.aci aci ≡ false)

abbrev pub Distinct : List ℕ → Type 0
Distinct [] = Unit {0}
Distinct (t ∷ ts) = (contains ts t ≡ false) × Distinct ts

-- One receipt for each sender, and each timestamp once in it.
abbrev pub OnePerSender : List PendingReceipt → Type 0
OnePerSender [] = Unit {0}
OnePerSender (p ∷ ps) = NotFor p.sender.aci ps × Distinct p.timestamps × OnePerSender ps

Distinct-append :
    (ts : List ℕ) (t : ℕ) → contains ts t ≡ false → Distinct ts → Distinct (ts ++ t ∷ [])
Distinct-append [] t h d = (refl, tt)
Distinct-append (x ∷ ts) t h d = (
  contains-append ts t x ∙ ground (arith, d.0, h, ==_iff t x),
  Distinct-append ts t (ground (arith, h)) d.1,
)

Distinct-with_timestamp :
    (p : PendingReceipt) (t : ℕ) → Distinct p.timestamps → Distinct (with_timestamp p t).timestamps
unfolding with_timestamp
Distinct-with_timestamp p t d = elim (Bool-cases (contains p.timestamps t)) [
  | inl h ↦ rw h d
  | inr h ↦ rw h (Distinct-append p.timestamps t h d)
]

NotFor-add_pending :
    (aci : Bytes) (ps : List PendingReceipt) (sender : Recipient) (t : ℕ)
    → str_eq sender.aci aci ≡ false
    → NotFor aci ps
    → NotFor aci (add_pending ps sender t)
unfolding add_pending
NotFor-add_pending aci [] sender t h n = (h, tt)
NotFor-add_pending aci (p ∷ ps) sender t h n = elim (Bool-cases (str_eq p.sender.aci sender.aci)) [
  | inl e ↦ rw e (rw (sender-with_timestamp p t) n.0, n.1)
  | inr e ↦ rw e (n.0, NotFor-add_pending aci ps sender t h n.1)
]

add_pending-OnePerSender :
    (ps : List PendingReceipt) (sender : Recipient) (t : ℕ)
    → OnePerSender ps
    → OnePerSender (add_pending ps sender t)
unfolding add_pending
add_pending-OnePerSender [] sender t o = (tt, (refl, tt), tt)
add_pending-OnePerSender (p ∷ ps) sender t o = elim (Bool-cases (str_eq p.sender.aci sender.aci)) [
  | inl e ↦ rw (e, sender-with_timestamp p t) (o.0, Distinct-with_timestamp p t o.1, o.2)
  | inr e ↦ rw e (
    NotFor-add_pending p.sender.aci ps sender t (str_eq_sym sender.aci p.sender.aci ∙ e) o.0,
    o.1,
    add_pending-OnePerSender ps sender t o.2,
  )
]

queued-OnePerSender :
    (ps : List PendingReceipt) (msg : Option Message)
    → OnePerSender ps
    → OnePerSender (queued ps msg).0
unfolding queued
queued-OnePerSender ps none o = o
queued-OnePerSender ps (some msg) o = add_pending-OnePerSender ps _ _ o

add_all-OnePerSender :
    (ps : List PendingReceipt) (evts : List Event)
    → OnePerSender ps
    → OnePerSender (add_all ps evts)
unfolding add_all add_receipt
add_all-OnePerSender ps [] o = o
add_all-OnePerSender ps (evt ∷ evts) o =
    add_all-OnePerSender (queued ps (incoming_message evt)).0 evts
      (queued-OnePerSender ps (incoming_message evt) o)

-- The read receipts collected from any events are one for each sender, with no timestamp twice,
-- and they are for exactly the messages from other users among the events: a sender's timestamp is
-- in its receipt just when some event is such a message.
pub batch_lem :
    (evts : List Event) (aci : Bytes) (t : ℕ)
    → OnePerSender (add_all [] evts)
      × (covers (add_all [] evts) aci t
          ≡ any (λ evt. is_message_of (incoming_message evt) aci t) evts)
batch_lem evts aci t = (add_all-OnePerSender [] evts tt, covers-add_all [] evts aci t)
