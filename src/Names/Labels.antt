-- ===== src/Names/Labels.antt =====
-- internal/app/names.go: labels of contacts with the same name.
use go_signal.Base.{
  suc, ◌+◌, ◌<◌, Bool, true, false, none, some, List, [], ◌∷◌, ◌++◌, Bytes, codes, is_empty, str_eq,
  str_eq_refl, any, ltb, ◌≡◌, ◌≢◌, ◌∙◌, refl, sym, ap, subst, arith, Bool-cases, inl, inr,
  append_assoc,
}
use go_signal.Names.{
  Contact, display_name, NameEntry, distinguish, count_names, entry_of, keyed, contact_aci,
  new_names, value_of, lookup, label,
}

abbrev pub has_aci : Bytes → List Contact → Bool
has_aci aci cs = any (λ c. str_eq c.recipient.aci aci) cs

no_value :
    (aci : Bytes) (all cs : List Contact)
    → has_aci aci cs ≡ false
    → value_of aci (keyed contact_aci all cs) ≡ none
unfolding value_of keyed
no_value aci all [] h = refl
no_value aci all (c ∷ cs) h =
    let other : str_eq c.recipient.aci aci ≡ false = ground (arith, h) in
    let rest : has_aci aci cs ≡ false = ground (arith, h) in
    elim (Bool-cases (is_empty (contact_aci c))) [
      | inl e ↦ rw e (no_value aci all cs rest)
      | inr e ↦ rw e (rw (no_value aci all cs rest, other) refl)
    ]

value_keyed :
    (all before after : List Contact) (c : Contact)
    → is_empty c.recipient.aci ≡ false
    → has_aci c.recipient.aci after ≡ false
    → value_of c.recipient.aci (keyed contact_aci all (before ++ c ∷ after)) ≡ some (entry_of all c)
unfolding value_of keyed
value_keyed all [] after c e h =
    rw e (rw (no_value c.recipient.aci all after h, str_eq_refl c.recipient.aci) refl)
value_keyed all (b ∷ before) after c e h = elim (Bool-cases (is_empty (contact_aci b))) [
  | inl k ↦ rw k (value_keyed all before after c e h)
  | inr k ↦ rw k (rw (value_keyed all before after c e h) refl)
]

-- What NewNames knows of a contact that no later one has the ACI of.
lookup_contact :
    (own : Bytes) (before after : List Contact) (c : Contact)
    → is_empty c.recipient.aci ≡ false
    → has_aci c.recipient.aci after ≡ false
    → lookup (new_names own (before ++ c ∷ after)) c.recipient ≡ entry_of (before ++ c ∷ after) c
unfolding lookup new_names
lookup_contact own before after c e h =
    rw e (rw (value_keyed (before ++ c ∷ after) before after c e h) refl)

count-append :
    (name : Bytes) (xs ys : List Contact)
    → count_names name (xs ++ ys) ≡ count_names name xs + count_names name ys
unfolding count_names
count-append name [] ys = omega arith
count-append name (x ∷ xs) ys = ground (arith, count-append name xs ys)

left_cancel : (a b c : Bytes) → a ++ b ≡ a ++ c → b ≡ c
left_cancel [] b c h = h
left_cancel (x ∷ a) b c h = left_cancel a b c cc

right_cancel : (b c : Bytes) → b ++ codes ")" ≡ c ++ codes ")" → b ≡ c
right_cancel [] [] h = refl
right_cancel [] (y ∷ []) h = cc
right_cancel [] (y ∷ z ∷ c) h = cc
right_cancel (x ∷ []) [] h = cc
right_cancel (x ∷ z ∷ b) [] h = cc
right_cancel (x ∷ b) (y ∷ c) h =
    let tail : b ++ codes ")" ≡ c ++ codes ")" = cc in
    let rest = right_cancel b c tail in let head : x ≡ y = cc in cc

-- The label of one of several contacts of the same name.
shared_label :
    (all : List Contact) (c : Contact)
    → 1 < count_names (display_name c) all
    → (entry_of all c).label ≡ display_name c ++ codes " (" ++ distinguish c ++ codes ")"
unfolding entry_of
shared_label all c h =
    let many : ltb 1 (count_names (display_name c) all) ≡ true = ground arith in rw many refl

counted :
    (xs ys zs : List Contact) (c d : Contact)
    → display_name c ≡ display_name d
    → 1 < count_names (display_name c) (xs ++ c ∷ (ys ++ d ∷ zs))
counted xs ys zs c d h =
    let name = display_name c in
    let one : count_names name (c ∷ (ys ++ d ∷ zs)) ≡ suc (count_names name (ys ++ d ∷ zs)) =
      unfold count_names in rw (str_eq_refl name) refl in
    let same : str_eq (display_name d) name ≡ true =
      ap (λ n. str_eq n name) (sym h) ∙ str_eq_refl name in
    let two : count_names name (d ∷ zs) ≡ suc (count_names name zs) =
      unfold count_names in rw same refl in
    omega
      (arith, one, two, count-append name xs (c ∷ (ys ++ d ∷ zs)), count-append name ys (d ∷ zs))

-- Two contacts with the same display name, each known by an ACI that no later contact has, have
-- different labels in the names of all contacts unless what is to distinguish them (the number, or
-- the start of the ACI) is the same.
pub labels_differ :
    (own : Bytes) (xs ys zs : List Contact) (c d : Contact)
    → display_name c ≡ display_name d
    → distinguish c ≢ distinguish d
    → is_empty c.recipient.aci ≡ false
    → is_empty d.recipient.aci ≡ false
    → has_aci c.recipient.aci (ys ++ d ∷ zs) ≡ false
    → has_aci d.recipient.aci zs ≡ false
    → label (new_names own (xs ++ c ∷ (ys ++ d ∷ zs))) c.recipient
      ≢ label (new_names own (xs ++ c ∷ (ys ++ d ∷ zs))) d.recipient
labels_differ own xs ys zs c d same differ ec ed hc hd equal =
    let all = xs ++ c ∷ (ys ++ d ∷ zs) in
    let many = counted xs ys zs c d same in
    let many' : 1 < count_names (display_name d) all =
      subst (λ n. 1 < count_names n all) same many in
    let lc =
      ap (λ (e : NameEntry). e.label) (lookup_contact own xs (ys ++ d ∷ zs) c ec hc)
      ∙ shared_label all c many in
    let split : all ≡ (xs ++ c ∷ ys) ++ d ∷ zs = sym (append_assoc xs (c ∷ ys) (d ∷ zs)) in
    let ld =
      ap (λ l. label (new_names own l) d.recipient) split
      ∙ ap (λ (e : NameEntry). e.label) (lookup_contact own (xs ++ c ∷ ys) zs d ed hd)
      ∙ ap (λ l. (entry_of l d).label) (sym split)
      ∙ shared_label all d many' in
    let whole : display_name c ++ codes " (" ++ distinguish c ++ codes ")"
        ≡ display_name c ++ codes " (" ++ distinguish d ++ codes ")" =
      sym lc ∙ equal ∙ ld ∙ ap (λ n. n ++ codes " (" ++ distinguish d ++ codes ")") (sym same) in
    let start = display_name c ++ codes " (" in
    differ (
      left_cancel start (distinguish c) (distinguish d)
        (right_cancel (start ++ distinguish c) (start ++ distinguish d) whole))
