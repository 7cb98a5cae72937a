-- ===== src/Views/Signature.antt =====
-- GetConfigSignature and reflect.DeepEqual (pkg/redisutil/clusterinfo.go): when two lists of nodes have
-- the same signature.
use redis_cluster_operator.Common.{
  ℕ, true, false, Option, none, some, List, [], ◌∷◌, ◌≡◌, refl, sym, ap, ◌∙◌, ◌⊎◌, inl, inr, Text,
  text_eq, text_eq_iff, text_eq_key, lookup, Bool-cases, arith, Bool, ◌&&◌, if◌then◌else◌, codes,
  insert, lookup-insert,
}
use redis_cluster_operator.Node.{Nodes, ip_port}
use redis_cluster_operator.Views.Check.{
  ConfigSignature, signature_from, get_config_signature, equal_slots, same_entry, same_at,
  deep_equal,
}

equal_slots→eq : (xs ys : List ℕ) → equal_slots xs ys ≡ true → xs ≡ ys
unfolding equal_slots
equal_slots→eq [] [] h = refl
equal_slots→eq [] (y ∷ ys) h = cc
equal_slots→eq (x ∷ xs) [] h = cc
equal_slots→eq (x ∷ xs) (y ∷ ys) h = ground (arith, equal_slots→eq xs ys)

equal_slots_refl : (xs : List ℕ) → equal_slots xs xs ≡ true
unfolding equal_slots
equal_slots_refl [] = refl
equal_slots_refl (x ∷ xs) = ground (arith, equal_slots_refl xs)

same_entry→eq : (a b : Option (List ℕ)) → same_entry a b ≡ true → a ≡ b
unfolding same_entry
same_entry→eq none none h = refl
same_entry→eq none (some ys) h = cc
same_entry→eq (some xs) none h = cc
same_entry→eq (some xs) (some ys) h = ap some (equal_slots→eq xs ys h)

same_entry_refl : (a : Option (List ℕ)) → same_entry a a ≡ true
unfolding same_entry
same_entry_refl none = refl
same_entry_refl (some xs) = equal_slots_refl xs

-- Two maps hold the same at every key.
abbrev pub SameSlots : ConfigSignature → ConfigSignature → Type 0
SameSlots m n = (k : Text) → lookup k m ≡ lookup k n

module _ (m n : ConfigSignature) where
  -- At a key of the third map, the two maps hold the same.
  same_at-lookup :
      (p : ConfigSignature) (k : Text)
      → same_at m n p ≡ true
      → (lookup k p ≡ none) ⊎ (lookup k m ≡ lookup k n)
  unfolding same_at lookup
  same_at-lookup [] k h = inl refl
  same_at-lookup ((j, slots) ∷ p) k h = elim (Bool-cases (text_eq j k)) [
    | inl e ↦
        let at_j : lookup j m ≡ lookup j n =
          same_entry→eq (lookup j m) (lookup j n) (ground arith) in
        inr (
          ap (λ t. lookup t m) (sym ((text_eq_iff j k).0 e))
          ∙ at_j
          ∙ ap (λ t. lookup t n) ((text_eq_iff j k).0 e))
    | inr e ↦ rw e (same_at-lookup p k (ground arith))
  ]

  same_at_all : (p : ConfigSignature) → SameSlots m n → same_at m n p ≡ true
  unfolding same_at
  same_at_all [] h = refl
  same_at_all ((j, slots) ∷ p) h =
      let here : same_entry (lookup j m) (lookup j n) ≡ true =
        rw (h j) (same_entry_refl (lookup j n)) in
      ground (arith, here, same_at_all p h)

  deep_equal→same : deep_equal m n ≡ true → SameSlots m n
  unfolding deep_equal
  deep_equal→same h k =
      let left : same_at m n m ≡ true = ground arith in
      let right : same_at m n n ≡ true = ground arith in
      elim (same_at-lookup m k left) [
        | inr e ↦ e
        | inl no_m ↦ elim (same_at-lookup n k right) [ inr e ↦ e | inl no_n ↦ no_m ∙ sym no_n ]
      ]

  same→deep_equal : SameSlots m n → deep_equal m n ≡ true
  unfolding deep_equal
  same→deep_equal h = ground (arith, same_at_all m h, same_at_all n h)

-- The slots of the last of the nodes that are masters with an address; `none` without such a node.
unfoldable pub slots_named : Text → Nodes → Option (List ℕ)
slots_named k [] = none
slots_named k (n ∷ ns) =
    let here = text_eq n.role (codes "master") && text_eq (ip_port n) k in
    elim (slots_named k ns) [ some slots ↦ some slots | none ↦ if here then some n.slots else none ]

or_else : Option (List ℕ) → Option (List ℕ) → Option (List ℕ)
or_else (some slots) o = some slots
or_else none o = o

named_before :
    (later : Option (List ℕ)) (here : Bool) (slots : List ℕ) (o : Option (List ℕ))
    → or_else (elim later [ some s ↦ some s | none ↦ if here then some slots else none ]) o
      ≡ or_else later (if here then some slots else o)
unfolding or_else
named_before (some s) here slots o = refl
named_before none true slots o = refl
named_before none false slots o = refl

lookup-signature_from :
    (ns : Nodes) (m : ConfigSignature) (k : Text)
    → lookup k (signature_from ns m) ≡ or_else (slots_named k ns) (lookup k m)
unfolding signature_from slots_named or_else
lookup-signature_from [] m k = refl
lookup-signature_from (n ∷ ns) m k =
    lookup-signature_from ns
      (if text_eq n.role (codes "master") then insert (ip_port n) n.slots m else m) k
    ∙ ap (or_else (slots_named k ns)) (kept (text_eq n.role (codes "master")))
    ∙ sym (
        named_before (slots_named k ns) (text_eq n.role (codes "master") && text_eq (ip_port n) k)
          n.slots (lookup k m))
  where
    kept :
        (t : Bool)
        → lookup k (if t then insert (ip_port n) n.slots m else m)
          ≡ (if t && text_eq (ip_port n) k then some n.slots else lookup k m)
    kept true = lookup-insert (ip_port n) k n.slots m
    kept false = refl

or_else-none : (o : Option (List ℕ)) → or_else o none ≡ o
unfolding or_else
or_else-none none = refl
or_else-none (some slots) = refl

lookup-get_config_signature :
    (ns : Nodes) (k : Text) → lookup k (get_config_signature ns) ≡ slots_named k ns
unfolding get_config_signature lookup
lookup-get_config_signature ns k = lookup-signature_from ns [] k ∙ or_else-none (slots_named k ns)

-- Two lists of nodes have the same masters' addresses, with the same slots at each.
abbrev pub SameMasters : Nodes → Nodes → Type 0
SameMasters ns ms = (k : Text) → slots_named k ns ≡ slots_named k ms

pub deep_equal→masters :
    (ns ms : Nodes)
    → deep_equal (get_config_signature ns) (get_config_signature ms) ≡ true
    → SameMasters ns ms
deep_equal→masters ns ms h k =
    sym (lookup-get_config_signature ns k)
    ∙ deep_equal→same (get_config_signature ns) (get_config_signature ms) h k
    ∙ lookup-get_config_signature ms k

pub masters→deep_equal :
    (ns ms : Nodes)
    → SameMasters ns ms
    → deep_equal (get_config_signature ns) (get_config_signature ms) ≡ true
masters→deep_equal ns ms h =
    same→deep_equal (get_config_signature ns) (get_config_signature ms)
      (λ k. lookup-get_config_signature ns k ∙ h k ∙ sym (lookup-get_config_signature ms k))
