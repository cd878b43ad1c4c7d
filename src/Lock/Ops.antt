-- ===== src/Lock/Ops.antt =====
-- webdav/lock.go: the methods of memLS.
pub mod Confirmed
pub mod Confirm
pub mod Exclusive
pub mod Sound
pub mod Released
use webdav_serverless.Base.{
  ℕ, zero, suc, ◌+◌, ◌-◌, ◌*◌, ◌%◌, ◌/◌, ◌^◌, Bool, true, false, ◌&&◌, ◌||◌, not, Option, none,
  some, List, [], ◌∷◌, ◌++◌, ◌≡◌, refl, Bytes, codes, bytes_eq, beq, has_prefix, if◌then◌else◌,
  length, leb, ltb, ◌==◌,
}
use webdav_serverless.Base.Dict.{Dict, lookup, insert, erase}
use webdav_serverless.Path.{root, slash, slash_clean}
use webdav_serverless.IfHeader.{Condition}
use webdav_serverless.Lock.Decimal.{format_uint}
use webdav_serverless.Lock.{
  LockError, confirmation_failed, locked, no_such_lock, LockResult, granted, refused, LockDetails,
  Node, MemLs, ◌>>=◌, set_node, heap_push, heap_remove, unlist, can_create, refer, unrefer,
  walk_to_root, expiry_of, or_fresh,
}

unfoldable pub next_token : MemLs → Bytes × MemLs
unfolding format_uint
next_token m = let gen = (m.gen + 1) % 2 ^ 64 in (format_uint gen, record m { gen = gen })

-- The end of remove, where the node may have left the map.
unfoldable pub unqueue : Bytes → MemLs → Option Node → MemLs
unfolding heap_remove unlist
unqueue name m none = record m { by_expiry = unlist name m.by_expiry }
unqueue name m (some n) = heap_remove name n m

unfoldable pub remove : Bytes → Node → MemLs → Option MemLs
unfolding unqueue unrefer walk_to_root
remove name n m = do
  nodes ←
      unrefer (insert name (record n { token = [] }) m.by_name) (walk_to_root n.details.lock_root)
  let rest = record m { by_name = nodes; by_token = erase n.token m.by_token }
  some (if n.queued then unqueue name rest (lookup name nodes) else rest)

-- The loop of collectExpiredNodes; a round takes a node off the heap.
unfoldable pub remove_at : Bytes → MemLs → Option Node → Option MemLs
unfolding remove
remove_at name m none = none
remove_at name m (some n) = remove name n m

unfoldable pub collect : ℕ → ℕ → MemLs → List Bytes → Option MemLs
unfolding remove_at
collect zero now m heap = some m
collect (suc fuel) now m [] = some m
collect (suc fuel) now m (x ∷ xs) =
    let removed = remove_at x m (lookup x m.by_name) in
    let again = removed >>= λ rest. collect fuel now rest rest.by_expiry in
    if ltb now (expiry_of (lookup x m.by_name)) then some m else again

unfoldable pub collect_expired_nodes : ℕ → MemLs → Option MemLs
unfolding collect
collect_expired_nodes now m = collect (suc (length m.by_expiry)) now m m.by_expiry

-- `lookup`: the node of the first condition that claims the name, with the node's name.
abbrev pub covers : Bytes → Node → Bool
covers name n =
    beq name n.details.lock_root
    || (not n.details.zero_depth
        && (beq n.details.lock_root root || has_prefix name (n.details.lock_root ++ slash ∷ [])))

abbrev pub node_of : MemLs → Option Bytes → Option (Bytes × Node)
node_of m none = none
node_of m (some x) = elim (lookup x m.by_name) [ none ↦ none | some n ↦ some (x, n) ]

claim : Bytes → Option (Bytes × Node) → Option Bytes → Option Bytes
claim name none rest = rest
claim name (some (x, n)) rest = if not n.held && covers name n then some x else rest

unfoldable pub lookup_claim : Bytes → List Condition → MemLs → Option Bytes
unfolding claim
lookup_claim name [] m = none
lookup_claim name (c ∷ cs) m =
    let rest = lookup_claim name cs m in claim name (node_of m (lookup c.token m.by_token)) rest

-- hold and unhold, which panic on a node that is held, or is not held.
pub hold_node : Bytes → MemLs → Option Node → Option MemLs
unfolding heap_remove
hold_node x m none = none
hold_node x m (some n) =
    if n.held
    then none
    else (let h = record n { held = true } in
        some (elim n.details.duration [
          | none ↦ set_node x h m
          | some d ↦ if n.queued then heap_remove x h m else set_node x h m
        ]))

unfoldable pub hold : Bytes → MemLs → Option MemLs
unfolding hold_node
hold x m = hold_node x m (lookup x m.by_name)

pub unhold_node : Bytes → MemLs → Option Node → Option MemLs
unfolding heap_push
unhold_node x m none = none
unhold_node x m (some n) =
    if n.held
    then (let h = record n { held = false } in
        some (elim n.details.duration [ none ↦ set_node x h m | some d ↦ heap_push x h m ]))
    else none

unfoldable pub unhold : Bytes → MemLs → Option MemLs
unfolding unhold_node
unhold x m = unhold_node x m (lookup x m.by_name)

abbrev pub on_some : (Bytes → MemLs → Option MemLs) → Option Bytes → MemLs → Option MemLs
on_some f none m = some m
on_some f (some x) m = f x m

-- The nodes that a Confirm holds until they are released.
abbrev pub Release : Type 0
Release = Option Bytes × Option Bytes

-- `n1 == n0`
abbrev pub not_twice : Option Bytes → Option Bytes → Option Bytes
not_twice none n1 = n1
not_twice (some x) none = none
not_twice (some x) (some y) = if beq y x then none else some y

-- An empty name is not looked up.
abbrev pub claim_name : Bytes → List Condition → MemLs → LockResult (Option Bytes)
claim_name [] cs m = granted none
claim_name (c ∷ name) cs m = elim (lookup_claim (slash_clean (c ∷ name)) cs m) [
  | none ↦ refused confirmation_failed
  | some x ↦ granted (some x)
]

pub hold_both :
    LockResult (Option Bytes)
    → LockResult (Option Bytes)
    → MemLs
    → Option (LockResult Release × MemLs)
unfolding hold
hold_both (refused e) r1 m = some (refused e, m)
hold_both (granted n0) (refused e) m = some (refused e, m)
hold_both (granted n0) (granted n1) m = do
  m ← on_some hold n0 m
  m ← on_some hold (not_twice n0 n1) m
  some (granted (n0, not_twice n0 n1), m)

unfoldable pub confirm :
    ℕ → Bytes → Bytes → List Condition → MemLs → Option (LockResult Release × MemLs)
unfolding hold_both lookup_claim
confirm now name0 name1 conditions m = do
  m ← collect_expired_nodes now m
  hold_both (claim_name name0 conditions m) (claim_name name1 conditions m) m

-- The function that Confirm returns.
unfoldable pub release : Release → MemLs → Option MemLs
unfolding unhold
release (n0, n1) m = do m ← on_some unhold n1 m; on_some unhold n0 m

-- The node that the method create gives, with its details and its token.
abbrev pub lock_node : LockDetails → Bytes → ℕ → Node → Node
lock_node details token now n = elim details.duration [
  | none ↦ record n { details = details; token = token }
  | some d ↦ record n { details = details; token = token; expiry = now + d }
]

pub enqueue : Bytes → Node → MemLs → MemLs
unfolding heap_push
enqueue name n m = elim n.details.duration [
  | none ↦ set_node name n m
  | some d ↦ heap_push name n m
]

pub create_lock : ℕ → LockDetails → MemLs → LockResult Bytes × MemLs
unfolding refer walk_to_root enqueue next_token
create_lock now details m =
    let nodes = refer m.by_name (walk_to_root details.lock_root) in
    let (token, m) = next_token (record m { by_name = nodes }) in
    let n =
      lock_node details token now (or_fresh details.lock_root (lookup details.lock_root nodes)) in
    (
      granted token,
      enqueue details.lock_root n
          (record m { by_token = insert token details.lock_root m.by_token }),
    )

unfoldable pub create : ℕ → LockDetails → MemLs → Option (LockResult Bytes × MemLs)
unfolding create_lock
create now details m = do
  m ← collect_expired_nodes now m
  let d = record details { lock_root = slash_clean details.lock_root }
  some (if can_create d.lock_root d.zero_depth m then create_lock now d m else (refused locked, m))

pub refresh_node : ℕ → Option ℕ → MemLs → Option (Bytes × Node) → LockResult LockDetails × MemLs
unfolding enqueue heap_remove
refresh_node now duration m none = (refused no_such_lock, m)
refresh_node now duration m (some (x, n)) =
    if n.held
    then (refused locked, m)
    else (let off = if n.queued then heap_remove x n m else m in
        let d = record n.details { duration = duration } in
        (granted d, enqueue x (lock_node d n.token now (record n { queued = false })) off))

unfoldable pub refresh : ℕ → Bytes → Option ℕ → MemLs → Option (LockResult LockDetails × MemLs)
unfolding refresh_node
refresh now token duration m = do
  m ← collect_expired_nodes now m
  some (refresh_node now duration m (node_of m (lookup token m.by_token)))

pub unlock_node : MemLs → Option (Bytes × Node) → Option (LockResult (Unit {0}) × MemLs)
unfolding remove
unlock_node m none = some (refused no_such_lock, m)
unlock_node m (some (x, n)) =
    let removed = remove x n m in
    if n.held then some (refused locked, m) else (do m ← removed; some (granted tt, m))

unfoldable pub unlock : ℕ → Bytes → MemLs → Option (LockResult (Unit {0}) × MemLs)
unfolding unlock_node
unlock now token m = do
  m ← collect_expired_nodes now m
  unlock_node m (node_of m (lookup token m.by_token))
