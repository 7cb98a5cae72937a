-- ===== src/Clustering/Placement/Attempts.antt =====
-- AttachingSlavesToMaster (pkg/controller/clustering/roles.go): what it tries and what it returns.
use mathlib.Core.Path.{subst}
use redis_cluster_operator.Common.{
  ◌≡◌, ◌↔◌, refl, sym, ◌∙◌, ap, Option, none, some, List, [], ◌∷◌, ◌++◌, inl, inr, Bool-cases, Text,
  Dict, text_eq_key, lookup, arith,
}
use redis_cluster_operator.Clustering.{Ref, Store, MapOrder}
use redis_cluster_operator.Clustering.Placement.{Ctx}
use redis_cluster_operator.Clustering.Placement.Slaves.{
  attach_slaves, attach_found, attach_groups, attaching_slaves_to_master,
}
use redis_cluster_operator.Admin.{
  Call, attach_slave_call, World, Replies, pushed, AllSucceed, pushed-append,
}
use redis_cluster_operator.Clustering.Migration.Dispatch.{Outcome}

AllSucceed-append :
    (replies : Replies) (xs ys hist : List Call)
    → AllSucceed replies (xs ++ ys) hist
      ↔ (AllSucceed replies xs hist × AllSucceed replies ys (pushed xs hist))
AllSucceed-append replies [] ys hist = (λ a. (tt, a), λ a. a.1)
AllSucceed-append replies (x ∷ xs) ys hist =
    let rest = AllSucceed-append replies xs ys (x ∷ hist) in
    (λ a. let r = rest.0 a.1 in ((a.0, r.0), r.1), λ a. (a.0.0, rest.1 (a.0.1, a.1)))

-- The slaves of a master, if the cluster has the master.
abbrev pub attach_calls : Text → List Ref → List Call
attach_calls master_id [] = []
attach_calls master_id (slave ∷ slaves) =
    attach_slave_call slave master_id ∷ attach_calls master_id slaves

abbrev pub found_calls : Store → Option Ref → List Ref → List Call
found_calls h none slaves = []
found_calls h (some master) slaves = attach_calls (h master).id slaves

abbrev pub attempts : Store → Dict Text Ref → Dict Text (List Ref) → List Call
attempts h cluster [] = []
attempts h cluster ((master_id, slaves) ∷ m) =
    found_calls h (lookup master_id cluster) slaves ++ attempts h cluster m

-- All calls are made, the nodes do not change, and there is no error just when there was none
-- before and all calls succeed.
pub record IsTried (replies : Replies) (calls : List Call) (before after : Outcome) : Type 0 where
  pub all_made : after.0.calls ≡ pushed calls before.0.calls
  pub store : after.0.store ≡ before.0.store
  pub error : (after.1 ≡ none) ↔ ((before.1 ≡ none) × AllSucceed replies calls before.0.calls)

module _ (replies : Replies) where
  IsTried-append :
      (xs ys : List Call) (a b c : Outcome)
      → IsTried replies xs a b
      → IsTried replies ys b c
      → IsTried replies (xs ++ ys) a c
  IsTried-append xs ys a b c p q =
      let s = AllSucceed-append replies xs ys a.0.calls in
      record {
        all_made = q.all_made ∙ ap (pushed ys) p.all_made ∙ sym (pushed-append xs ys a.0.calls);
        store = q.store ∙ p.store;
        error = (
          (λ e.
              let x = q.error.0 e in
              let y = p.error.0 x.0 in
              (y.0, s.1 (y.1, subst (AllSucceed replies ys) p.all_made x.1))),
          (λ e.
              let x = s.0 e.1 in
              q.error.1 (p.error.1 (e.0, x.0), subst (AllSucceed replies ys) (sym p.all_made) x.1)),
        );
      }

  attach_slaves-IsTried :
      (master_id : Text) (slaves : List Ref) (o : Outcome)
      → IsTried replies (attach_calls master_id slaves) o (attach_slaves replies master_id slaves o)
  unfolding attach_slaves
  attach_slaves-IsTried master_id [] o = record {
    all_made = refl;
    store = refl;
    error = (λ e. (e, tt), λ e. e.0);
  }
  attach_slaves-IsTried master_id (slave ∷ slaves) (w, err) =
      let attach = attach_slave_call slave master_id in
      let next : World = record { store = w.store; calls = attach ∷ w.calls } in
      elim (Bool-cases (replies (attach ∷ w.calls))) [
        | inl e ↦
            let rest = attach_slaves-IsTried master_id slaves (next, err) in
            rw e (record {
              all_made = rest.all_made;
              store = rest.store;
              error = (
                (λ x. let y = rest.error.0 x in (y.0, (e, y.1))),
                (λ x. rest.error.1 (x.0, x.1.1)),
              );
            })
        | inr e ↦
            let rest = attach_slaves-IsTried master_id slaves (next, some attach) in
            rw e (record {
              all_made = rest.all_made;
              store = rest.store;
              error = (
                (λ x. let y = rest.error.0 x in absurd (let z = y.0 in ground arith)),
                (λ x. absurd (let z = x.1.0 in ground arith)),
              );
            })
      ]

  attach_found-IsTried :
      (h : Store) (found : Option Ref) (slaves : List Ref) (o : Outcome)
      → IsTried replies (found_calls h found slaves) o (attach_found replies h found slaves o)
  unfolding attach_found
  attach_found-IsTried h none slaves o = record {
    all_made = refl;
    store = refl;
    error = (λ e. (e, tt), λ e. e.0);
  }
  attach_found-IsTried h (some master) slaves o = attach_slaves-IsTried (h master).id slaves o

  attach_groups-IsTried :
      (h : Store) (cluster : Dict Text Ref) (m : Dict Text (List Ref)) (o : Outcome)
      → o.0.store ≡ h
      → IsTried replies (attempts h cluster m) o (attach_groups replies cluster m o)
  unfolding attach_groups
  attach_groups-IsTried h cluster [] o s = record {
    all_made = refl;
    store = refl;
    error = (λ e. (e, tt), λ e. e.0);
  }
  attach_groups-IsTried h cluster ((master_id, slaves) ∷ m) o s =
      let found = lookup master_id cluster in
      let first =
        subst
          (λ t.
            IsTried replies (found_calls h found slaves) o (attach_found replies t found slaves o))
          (sym s) (attach_found-IsTried h found slaves o) in
      IsTried-append (found_calls h found slaves) (attempts h cluster m) o
        (attach_found replies o.0.store found slaves o) _ first
        (attach_groups-IsTried h cluster m (attach_found replies o.0.store found slaves o)
          (first.store ∙ s))

  -- AttachingSlavesToMaster calls for every slave of every master that the cluster knows, whatever
  -- fails, and returns an error just when one of the calls fails.
  pub attaching_slaves_to_master-IsTried :
      (order : MapOrder (List Ref)) (c : Ctx) (w : World)
      → IsTried replies
          (attempts w.store c.cluster (order.range c.slaves_by_master))
          (w, none)
          (attaching_slaves_to_master replies order c w)
  unfolding attaching_slaves_to_master
  attaching_slaves_to_master-IsTried order c w =
      attach_groups-IsTried w.store c.cluster (order.range c.slaves_by_master) (w, none) refl
