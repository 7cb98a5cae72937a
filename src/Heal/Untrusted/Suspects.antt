-- ===== src/Heal/Untrusted/Suspects.antt =====
-- The nodes that listUntrustedNodes finds, and the pods that checkIfPodNameExistAndIsReused accepts
-- (pkg/controller/heal/untrustenodes.go).
use mathlib.Core.List.{Permᴰ}
use redis_cluster_operator.Common.{
  ◌||◌, ◌≢◌, codes, is_empty, text_eq, text_eq_iff, eq→text_eq, ◌≡◌, refl, ◌∙◌, ap, Bool, true,
  false, ◌&&◌, not, none, some, List, [], ◌∷◌, inl, inr, ◌⊎◌, Bool-cases, Option-cases, All, Text,
  Dict, text_eq_key, lookup, insert, arith,
}
use redis_cluster_operator.Node.{
  Node, Nodes, has_status, status_handshake, filter_by_func, text_mem,
}
use redis_cluster_operator.Heal.{Infos}
use redis_cluster_operator.Heal.Ghosts.{all_present}
use redis_cluster_operator.Heal.Untrusted.{
  check_pods, Pod, untrusted_node, untrusted_friends, untrusted_views,
  check_if_pod_name_exist_and_is_reused, reuses_ip,
}

in_handshake : Nodes → (id ip pod_name : Text) → Bool
in_handshake [] id ip pod_name = false
in_handshake (n ∷ ns) id ip pod_name =
    (text_eq n.id id
      && text_eq n.ip ip
      && text_eq n.pod_name pod_name
      && text_mem (codes "handshake") n.fail_status)
    || in_handshake ns id ip pod_name

-- Some view has a friend in handshake with an id, an address and the name of a pod.
unfoldable pub suspected : Infos → (id ip pod_name : Text) → Bool
unfolding in_handshake
suspected [] id ip pod_name = false
suspected ((addr, none) ∷ infos) id ip pod_name = suspected infos id ip pod_name
suspected ((addr, some view) ∷ infos) id ip pod_name =
    in_handshake view.friends id ip pod_name || suspected infos id ip pod_name

-- No node with another id has the address.
abbrev pub Unshared : (id ip : Text) → Nodes → Type 0
Unshared id ip nodes = All (λ n. n.ip ≡ ip → n.id ≡ id) nodes

-- There is a pod with the name.
abbrev pub HasPod : Text → List Pod → Type 0
HasPod name [] = ⊥
HasPod name (p ∷ pods) = (p.name ≡ name) ⊎ HasPod name pods

-- No pod with the name has the address.
abbrev pub NotReused : (name ip : Text) → List Pod → Type 0
NotReused name ip pods = All (λ p. p.name ≡ name → p.pod_ip ≢ ip) pods

pub filter_by_func-Unshared :
    (u : Node) (nodes : Nodes) → filter_by_func (reuses_ip u) nodes ≡ [] → Unshared u.id u.ip nodes
unfolding filter_by_func reuses_ip
filter_by_func-Unshared u [] e = tt
filter_by_func-Unshared u (n ∷ nodes) e =
    elim (Bool-cases (text_eq n.ip u.ip && not (text_eq n.id u.id))) [
      | inl t ↦ absurd (cc (let f = e in rw t at (f)))
      | inr t ↦ (
        λ same. (text_eq_iff n.id u.id).0 (ground (arith, eq→text_eq n.ip u.ip same)),
        filter_by_func-Unshared u nodes (let f = e in rw t at (f)),
      )
    ]

check_pods-found :
    (u : Node) (pods : List Pod) (exist : Bool)
    → (check_pods u pods exist).0 ≡ true
    → (check_pods u pods exist).1 ≡ false
    → ((exist ≡ true) ⊎ HasPod u.pod_name pods) × NotReused u.pod_name u.ip pods
unfolding check_pods
check_pods-found u [] exist e f = (inl e, tt)
check_pods-found u (p ∷ pods) exist e f = elim (Bool-cases (text_eq p.name u.pod_name)) [
  | inl a ↦ elim (Bool-cases (text_eq p.pod_ip u.ip)) [
    | inl b ↦ absurd (cc (let g = f in rw (a, b) at (g)))
    | inr b ↦
        let rest =
          check_pods-found u pods (exist || true) (let g = e in rw (a, b) at (g))
            (let g = f in rw (a, b) at (g)) in
        (
          inr (inl ((text_eq_iff p.name u.pod_name).0 a)),
          (λ _ same. absurd (cc (b, eq→text_eq p.pod_ip u.ip same)), rest.1),
        )
  ]
  | inr a ↦
      let rest =
        check_pods-found u pods (exist || false) (let g = e in rw a at (g))
          (let g = f in rw a at (g)) in
      (
        elim rest.0 [ inl x ↦ inl (ground arith) | inr x ↦ inr (inr x) ],
        (λ same _. absurd (cc (a, eq→text_eq p.name u.pod_name same)), rest.1),
      )
]

pub check_if_pod_name_exist_and_is_reused-found :
    (u : Node) (pods : List Pod)
    → (check_if_pod_name_exist_and_is_reused u pods).0 ≡ true
    → (check_if_pod_name_exist_and_is_reused u pods).1 ≡ false
    → HasPod u.pod_name pods × NotReused u.pod_name u.ip pods
unfolding check_if_pod_name_exist_and_is_reused
check_if_pod_name_exist_and_is_reused-found u pods e f = elim (Bool-cases (is_empty u.pod_name)) [
  | inl a ↦ absurd (cc (let g = e in rw a at (g)))
  | inr a ↦
      let found =
        check_pods-found u pods false (let g = e in rw a at (g)) (let g = f in rw a at (g)) in
      (elim found.0 [ inl x ↦ absurd (cc x) | inr x ↦ x ], found.1)
]

module _ (S : Text → Text → Text → Bool) where
  -- Every node of the map stands under its id and is one of those described.
  abbrev pub all_suspects : Dict Text Node → Bool
  all_suspects [] = true
  all_suspects ((id, u) ∷ m) =
      let rest = all_suspects m in (text_eq u.id id && S u.id u.ip u.pod_name) && rest

  abbrev described : Text × Node → Bool
  described (id, u) = text_eq u.id id && S u.id u.ip u.pod_name

  pub all_suspects-permᴰ : {m n : Dict Text Node} → Permᴰ m n → all_suspects m ≡ all_suspects n
  all_suspects-permᴰ Permᴰ.nil = refl
  all_suspects-permᴰ (Permᴰ.cons {a = x} {b = y} e p) =
      let same = ap described e in ground (arith, all_suspects-permᴰ p)
  all_suspects-permᴰ (Permᴰ.swap {a = x} {b = y} {a' = x'} {b' = y'} e f) =
      let one = ap described e in let two = ap described f in ground arith
  all_suspects-permᴰ (Permᴰ.trans p q) = all_suspects-permᴰ p ∙ all_suspects-permᴰ q

  all_suspects-insert :
      (u : Node) (m : Dict Text Node)
      → all_suspects m ≡ true
      → S u.id u.ip u.pod_name ≡ true
      → all_suspects (insert u.id u m) ≡ true
  unfolding insert
  all_suspects-insert u [] a h = ground (arith, eq→text_eq u.id u.id refl)
  all_suspects-insert u ((j, v) ∷ m) a h =
      ground (arith, eq→text_eq u.id u.id refl, all_suspects-insert u m)

  untrusted_node-suspects :
      (n : Node) (m : Dict Text Node)
      → all_suspects m ≡ true
      → (has_status n status_handshake ≡ true → S n.id n.ip n.pod_name ≡ true)
      → all_suspects (untrusted_node n m) ≡ true
  unfolding untrusted_node
  untrusted_node-suspects n m a h = elim (Bool-cases (has_status n status_handshake)) [
    | inl e ↦ elim (Option-cases (lookup n.id m)) [
      | inl f ↦ rw (e, f) (all_suspects-insert n m a (h e))
      | inr (old, f) ↦ rw (e, f) a
    ]
    | inr e ↦ rw e a
  ]

  untrusted_friends-suspects :
      (ns : Nodes) (m : Dict Text Node)
      → all_suspects m ≡ true
      → ((id ip pod_name : Text) → in_handshake ns id ip pod_name ≡ true → S id ip pod_name ≡ true)
      → all_suspects (untrusted_friends ns m) ≡ true
  unfolding untrusted_friends in_handshake has_status
  untrusted_friends-suspects [] m a h = a
  untrusted_friends-suspects (n ∷ ns) m a h =
      untrusted_friends-suspects ns (untrusted_node n m)
        (untrusted_node-suspects n m a (λ e. h n.id n.ip n.pod_name (
          ground (
            arith,
            eq→text_eq n.id n.id refl,
            eq→text_eq n.ip n.ip refl,
            eq→text_eq n.pod_name n.pod_name refl,
          ))))
        (λ id ip pod_name e. h id ip pod_name (ground arith))

  pub untrusted_views-suspects :
      (infos : Infos) (m : Dict Text Node)
      → all_present infos ≡ true
      → all_suspects m ≡ true
      → ((id ip pod_name : Text) → suspected infos id ip pod_name ≡ true → S id ip pod_name ≡ true)
      → (m' : Dict Text Node) × (untrusted_views infos m ≡ some m') × (all_suspects m' ≡ true)
  unfolding untrusted_views suspected
  untrusted_views-suspects [] m p a h = (m, refl, a)
  untrusted_views-suspects ((addr, none) ∷ infos) m p a h = absurd (ground arith)
  untrusted_views-suspects ((addr, some view) ∷ infos) m p a h =
      untrusted_views-suspects infos (untrusted_friends view.friends m) p
        (untrusted_friends-suspects view.friends m a
          (λ id ip pod_name e. h id ip pod_name (ground arith)))
        (λ id ip pod_name e. h id ip pod_name (ground arith))
