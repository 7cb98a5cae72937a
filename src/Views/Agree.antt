-- ===== src/Views/Agree.antt =====
-- When ComputeStatus and GetClusterInfos find the views of all nodes consistent.
use mathlib.Core.Path.{subst}
use mathlib.Core.Option.{some-injective}
use redis_cluster_operator.Common.{
  Bool, true, false, Option, none, some, List, [], ◌∷◌, ◌++◌, ◌≡◌, refl, sym, ap, ◌∙◌, ◌↔◌, inl,
  inr, Text, text_eq, Dict, text_eq_key, All, append-nil, append_assoc, Bool-cases, Option-cases,
  arith, if◌then◌else◌, insert, map,
}
use redis_cluster_operator.Views.{View, decode_node_infos}
use redis_cluster_operator.Node.{Nodes, ip_port}
use redis_cluster_operator.Views.Check.{
  InfosStatus, unset, partial, inconsistent, consistent, ClusterInfos, ClusterInfosError, Choices,
  own_nodes, get_config_signature, nodes_view, consolidated_signature, all_agree, compute_status,
  note_view, read_views, judge, judge_read, get_cluster_infos,
}
use redis_cluster_operator.Views.Signature.{SameMasters, deep_equal→masters, masters→deep_equal}

module _ (ch : Choices) where
  -- The nodes as they record themselves, and the nodes that a view records, sorted.
  abbrev pub own_records : Dict Text View → Nodes
  own_records infos = ch.sort_by_id (map (λ e. e.1.node) infos)

  abbrev pub recorded : View → Nodes
  recorded v = ch.sort_by_id (v.friends ++ v.node ∷ [])

  -- Each view records the same masters' addresses and slots as the nodes record of themselves.
  abbrev pub Agreed : Dict Text View → Type 0
  Agreed infos = All (λ e. SameMasters (own_records infos) (recorded e.1)) infos

  all_agree→Agreed :
      (own : Nodes) (infos : Dict Text View)
      → all_agree ch (get_config_signature own) infos ≡ true
      → All (λ e. SameMasters own (recorded e.1)) infos
  unfolding all_agree nodes_view
  all_agree→Agreed own [] h = tt
  all_agree→Agreed own ((addr, v) ∷ infos) h = (
    deep_equal→masters own (recorded v) (ground arith),
    all_agree→Agreed own infos (ground arith),
  )

  Agreed→all_agree :
      (own : Nodes) (infos : Dict Text View)
      → All (λ e. SameMasters own (recorded e.1)) infos
      → all_agree ch (get_config_signature own) infos ≡ true
  unfolding all_agree nodes_view
  Agreed→all_agree own [] h = refl
  Agreed→all_agree own ((addr, v) ∷ infos) h =
      ground (arith, masters→deep_equal own (recorded v) h.0, Agreed→all_agree own infos h.1)

-- On views without a status ComputeStatus says that they are consistent exactly when each view records
-- the same masters, by their addresses, with the same slots as the nodes record of themselves, where
-- of two masters with one address the last in the order of sorting counts.
pub compute_status-Agreed :
    (ch : Choices) (infos : Dict Text View)
    → ((compute_status ch (record { infos = infos; status = unset })).1 ≡ true) ↔ Agreed ch infos
unfolding compute_status consolidated_signature own_nodes
compute_status-Agreed ch infos = (
  all_agree→Agreed ch (own_records ch infos) infos,
  Agreed→all_agree ch (own_records ch infos) infos,
)

-- The addresses that give no reply.
abbrev pub unanswered : (Text → Option Text) → List Text → List Text
unanswered reply [] = []
unanswered reply (addr ∷ addrs) =
    let rest = unanswered reply addrs in elim (reply addr) [ none ↦ addr ∷ rest | some raw ↦ rest ]

status_after : InfosStatus → List Text → InfosStatus
status_after s [] = s
status_after s (addr ∷ addrs) = partial

-- The view that an address gives of itself: its reply, decoded, if the view's own node has the address.
unfoldable pub answered : (Text → Option Text) → Text → Option View
answered reply addr = elim (reply addr) [
  | none ↦ none
  | some raw ↦ elim (decode_node_infos raw addr) [
    | none ↦ none
    | some v ↦ if text_eq (ip_port v.node) addr then some v else none
  ]
]

unfoldable pub noted : Text → Option View → Dict Text View → Dict Text View
noted addr none seen = seen
noted addr (some v) seen = insert addr v seen

-- The views of the addresses in their order, added to those seen before: of two with one address the
-- later one.
unfoldable pub views_in : (Text → Option Text) → List Text → Dict Text View → Dict Text View
unfolding answered noted
views_in reply [] seen = seen
views_in reply (addr ∷ addrs) seen = views_in reply addrs (noted addr (answered reply addr) seen)

module _ (ch : Choices) (reply : Text → Option Text) where
  status-note_view :
      (addr : Text) (v : View) (c : ClusterInfos) → (note_view ch reply addr v c).status ≡ c.status
  unfolding note_view
  status-note_view addr v c = ground arith

  partial_stays : (errs : List Text) → status_after partial errs ≡ partial
  unfolding status_after
  partial_stays [] = refl
  partial_stays (e ∷ errs) = refl

  infos-note_view :
      (addr raw : Text) (v : View) (c : ClusterInfos)
      → reply addr ≡ some raw
      → decode_node_infos raw addr ≡ some v
      → (note_view ch reply addr v c).infos ≡ noted addr (answered reply addr) c.infos
  unfolding note_view answered noted
  infos-note_view addr raw v c e d =
      rw (e, d, answered) (by_address (text_eq (ip_port v.node) addr))
    where
      by_address :
          (t : Bool)
          → (if t then record c { infos = insert addr v c.infos } else c).infos
            ≡ noted addr (if t then some v else none) c.infos
      by_address true = refl
      by_address false = refl

  infos-no_reply :
      (addr : Text) (seen : Dict Text View)
      → reply addr ≡ none
      → seen ≡ noted addr (answered reply addr) seen
  unfolding answered noted
  infos-no_reply addr seen e = rw (e, answered) refl

  -- The errors read so far and those of the addresses that do not answer, the status, and the views.
  abbrev Read :
      List Text
      → InfosStatus
      → List Text
      → Dict Text View
      → Option (ClusterInfos × List Text)
      → Type 0
  Read errs status missing seen none = Unit
  Read errs status missing seen (some (c, errs')) =
      (errs' ≡ errs ++ missing) × (c.status ≡ status_after status missing) × (c.infos ≡ seen)

  views_in_nil : (seen : Dict Text View) → seen ≡ views_in reply [] seen
  unfolding views_in
  views_in_nil seen = refl

  views_in_cons :
      (addr : Text) (addrs : List Text) (next seen : Dict Text View)
      → next ≡ noted addr (answered reply addr) seen
      → views_in reply addrs next ≡ views_in reply (addr ∷ addrs) seen
  unfolding views_in
  views_in_cons addr addrs next seen e = ap (views_in reply addrs) e

  read_views-Read :
      (addrs : List Text) (c : ClusterInfos) (errs : List Text)
      → Read errs c.status
          (unanswered reply addrs)
          (views_in reply addrs c.infos)
          (read_views ch reply addrs c errs)
  unfolding read_views status_after
  read_views-Read [] c errs = (sym (append-nil errs), refl, views_in_nil c.infos)
  read_views-Read (addr ∷ addrs) c errs = elim (Option-cases (reply addr)) [
    | inl e ↦
        rw (e, unanswered, read_views)
          (more addr (unanswered reply addrs) (views_in reply (addr ∷ addrs) c.infos)
            (read_views ch reply addrs (record c { status = partial }) (errs ++ addr ∷ []))
            (subst
              (λ seen.
                Read (errs ++ addr ∷ []) partial (unanswered reply addrs) seen
                  (read_views ch reply addrs (record c { status = partial }) (errs ++ addr ∷ [])))
              (views_in_cons addr addrs c.infos c.infos (infos-no_reply addr c.infos e))
              (read_views-Read addrs (record c { status = partial }) (errs ++ addr ∷ []))))
    | inr (raw, e) ↦ elim (Option-cases (decode_node_infos raw addr)) [
      | inl d ↦ rw (e, d, unanswered, read_views) tt
      | inr (v, d) ↦
          rw (e, d, unanswered, read_views)
            (subst
              (λ (p : InfosStatus × Dict Text View).
                Read errs p.0 (unanswered reply addrs) p.1
                  (read_views ch reply addrs (note_view ch reply addr v c) errs))
              (pair_eq (status-note_view addr v c) (
                views_in_cons addr addrs (note_view ch reply addr v c).infos c.infos
                  (infos-note_view addr raw v c e d)))
              (read_views-Read addrs (note_view ch reply addr v c) errs))
    ]
  ]
    where
      pair_eq :
          {s t : InfosStatus}
          → {m n : Dict Text View} → s ≡ t
          → m ≡ n
          → ◌≡◌ {A = InfosStatus × Dict Text View} (s, m) (t, n)
      pair_eq p q = cc

      more :
          (addr : Text) (missing : List Text) (seen : Dict Text View)
          (r : Option (ClusterInfos × List Text))
          → Read (errs ++ addr ∷ []) partial missing seen r
          → Read errs c.status (addr ∷ missing) seen r
      more addr missing seen none h = tt
      more addr missing seen (some (c', errs')) h =
          (h.0 ∙ append_assoc errs (addr ∷ []) missing, h.1 ∙ partial_stays missing, h.2)

  -- How GetClusterInfos ends, by the addresses that gave no reply and the views that the others gave:
  -- with no error, when all replied and the views agree; with an error, when they do not agree; and
  -- with an error that lists the addresses, when some did not reply.
  pub data Reported (missing : List Text) (views : Dict Text View) (c : ClusterInfos)
      (e : Option ClusterInfosError) : Type 0 where
    all_well :
        missing ≡ []
        → Agreed ch views
        → c.status ≡ consistent
        → e ≡ none
        → Reported missing views c e
    disagree :
        missing ≡ []
        → (Agreed ch views → ⊥)
        → c.status ≡ inconsistent
        → e ≡ some (record { errs = []; is_partial = false; is_inconsistent = true })
        → Reported missing views c e
    no_reply :
        (addr : Text) (addrs : List Text)
        → missing ≡ addr ∷ addrs
        → c.infos ≡ views
        → c.status ≡ partial
        → e ≡ some (record { errs = missing; is_partial = true; is_inconsistent = false })
        → Reported missing views c e

  judge-Reported :
      (missing : List Text) (infos : Dict Text View) (status : InfosStatus) (errs : List Text)
      → status ≡ status_after unset missing
      → errs ≡ missing
      → let r = judge ch reply (record { infos = infos; status = status }) errs in
        Reported missing infos r.0 r.1
  unfolding judge compute_status consolidated_signature own_nodes status_after
  judge-Reported [] infos status [] s e =
      let own = own_records ch infos in
      elim (Bool-cases (all_agree ch (get_config_signature own) infos)) [
        | inl agree ↦ rw (s, agree) (all_well refl (all_agree→Agreed ch own infos agree) refl refl)
        | inr differ ↦
            rw (s, differ)
              (disagree refl
                (λ agreed. absurd (ground (arith, Agreed→all_agree ch own infos agreed))) refl refl)
      ]
  judge-Reported (m ∷ missing) infos status [] s e = absurd (cc e)
  judge-Reported [] infos status (x ∷ errs) s e = absurd (cc e)
  judge-Reported (m ∷ missing) infos status (x ∷ errs) s e =
      rw (s, e) (no_reply m missing refl refl refl refl)

  judged :
      (missing : List Text) (views : Dict Text View) (r : Option (ClusterInfos × List Text))
      (c : ClusterInfos) (e : Option ClusterInfosError)
      → Read [] unset missing views r
      → judge_read ch reply r ≡ some (c, e)
      → Reported missing views c e
  unfolding judge_read
  judged missing views none c e h eq = absurd (cc eq)
  judged missing views (some (d, errs)) c e h eq =
      let same : judge ch reply d errs ≡ (c, e) =
        some-injective (judge ch reply d errs) (c, e) eq in
      subst (λ v. Reported missing v c e) h.2
        (subst (λ p. Reported missing d.infos p.0 p.1) same
          (judge-Reported missing d.infos d.status errs h.1 h.0))

-- GetClusterInfos returns no error exactly when every address replied and the views agree, each of which
-- is the decoded reply of an address whose own node has that address; otherwise it says that these
-- views do not agree, or lists the addresses that did not reply and keeps the views of the others. The
-- condition is that it returns.
pub get_cluster_infos-Reported :
    (ch : Choices) (reply : Text → Option Text) (addrs : List Text) (c : ClusterInfos)
    (e : Option ClusterInfosError)
    → get_cluster_infos ch reply addrs ≡ some (c, e)
    → Reported ch reply (unanswered reply addrs) (views_in reply addrs []) c e
unfolding get_cluster_infos
get_cluster_infos-Reported ch reply addrs c e h =
    judged ch reply (unanswered reply addrs) (views_in reply addrs []) _ c e
      (read_views-Read ch reply addrs (record { infos = []; status = unset }) []) h
