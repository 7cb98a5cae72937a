-- ===== src/Clustering.antt =====
-- pkg/controller/clustering: what its files share. Nodes are Go pointers: a Ref is the address of
-- a node, and the Store holds the nodes at their addresses.
pub mod Dicts
pub mod Migration
pub mod Rebalance
pub mod Placement
use redis_cluster_operator.Common.{
  ℕ, Bool, true, false, Option, none, some, List, [], ◌∷◌, ◌++◌, if◌then◌else◌, ◌==◌, Text, text_eq,
  ℤ, Dict, Eq, insert, lookup, Perm, ◌≡◌, ◌≢◌, refl, arith,
}
use redis_cluster_operator.Node.{Node}

abbrev pub Ref : Type 0
Ref = ℕ

abbrev pub Store : Type 0
Store = Ref → Node

unfoldable pub update : Store → Ref → Node → Store
update h r n q = if q == r then n else h q

pub update_self : (h : Store) (r : Ref) (n : Node) → update h r n r ≡ n
unfolding update
update_self h r n = ground arith

pub update_ne : (h : Store) (r q : Ref) (n : Node) → q ≢ r → update h r n q ≡ h q
unfolding update
update_ne h r q n d = ground arith

-- n.Slots = slots
unfoldable pub with_slots : Node → List ℕ → Node
with_slots n slots = record n { slots = slots }

pub slots-with_slots : (n : Node) (slots : List ℕ) → (with_slots n slots).slots ≡ slots
unfolding with_slots
slots-with_slots n slots = refl

pub balance-with_slots : (n : Node) (slots : List ℕ) → (with_slots n slots).balance ≡ n.balance
unfolding with_slots
balance-with_slots n slots = refl

-- n.SetBalance(balance)
unfoldable pub with_balance : Node → ℤ → Node
with_balance n balance = record n { balance = balance }

pub balance-with_balance : (n : Node) (b : ℤ) → (with_balance n b).balance ≡ b
unfolding with_balance
balance-with_balance n b = refl

pub slots-with_balance : (n : Node) (b : ℤ) → (with_balance n b).slots ≡ n.slots
unfolding with_balance
slots-with_balance n b = refl

-- Nodes.GetNodeByID over pointers.
unfoldable pub find_ref : Store → List Ref → Text → Option Ref
find_ref h [] id = none
find_ref h (r ∷ rs) id = if text_eq (h r).id id then some r else find_ref h rs id

-- The order in which a range statement visits a map with text keys: the runtime chooses it, and
-- visits each entry once.
pub record MapOrder (V : Type 0) : Type 0 where
  pub range : Dict Text V → Dict Text V
  pub range_perm : (m : Dict Text V) → Perm (range m) m

-- m[k] = append(m[k], xs...), where a missing key reads as the empty slice.
unfoldable pub append_to : {V : Type 0} → Option (List V) → List V → List V
append_to none xs = xs
append_to (some old) xs = old ++ xs

module _ {K V : Type 0} ⦃e : Eq K⦄ where
  unfoldable pub append_at : K → List V → Dict K (List V) → Dict K (List V)
  unfolding append_to
  append_at k xs m = insert k (append_to (lookup k m) xs) m
