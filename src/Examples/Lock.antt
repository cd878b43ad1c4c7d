-- ===== src/Examples/Lock.antt =====
-- The lock system on concrete inputs: a lock of the path "/a", without an end and with one.
use mathlib.Core.Option.{some-injective}
use webdav_serverless.Base.{
  ◌⊎◌, ◌↔◌, bytes_dec, not, ◌&&◌, subst, beq_refl, ℕ, Bool, true, false, none, some, List, [], ◌∷◌,
  ◌++◌, ◌≡◌, refl, sym, ap, ◌∙◌, ◌+◌, contains, beq, beq→eq, Bytes, codes, bytes_eq, map, ◌*◌,
  arith, has_prefix,
}
use webdav_serverless.Base.Dict.{lookup, insert}
use webdav_serverless.Path.{rooted, IsElement, slash_clean}
use webdav_serverless.IfHeader.{Condition}
use webdav_serverless.Lock.{LockDetails, Node, MemLs, LockResult, granted, walk_to_root}
use webdav_serverless.Lock.Counts.{times, refs}
use webdav_serverless.Lock.Ops.Sound.{total, IsSound, IsLock, IsUnlocked, IsNodup, expires}
use webdav_serverless.Lock.{refused, locked}
use webdav_serverless.Lock.Ops.Sound.Compatible.{IsCompatible}
use webdav_serverless.Lock.Ops.Sound.Exact.{create-IsCompatible}
use webdav_serverless.Lock.Ops.Sound.Methods.{Sound}
use webdav_serverless.Lock.Ops.Sound.Confirming.{IsAs, IsHolding, methods-IsSound}
use webdav_serverless.Lock.Ops.{create, refresh, unlock, next_token}
use webdav_serverless.Lock.Ops.Sound.Expiry.{IsCurrent, collect_expired_nodes-IsSound}
use webdav_serverless.Lock.Names.{prefixes, walk_to_root-rooted}
use webdav_serverless.Lock.Decimal.{format_uint}
use webdav_serverless.Lock.Timeout.{
  lasts, parse_timeout, seconds_prefix, Fits, parse_timeout-format_uint, parse_timeout-Fits,
}
use webdav_serverless.Lock.Ops.{confirm, Release, collect_expired_nodes}
use webdav_serverless.Lock.Ops.{release}
use webdav_serverless.Lock.Ops.Released.{confirm-release}
use webdav_serverless.Lock.Ops.Confirm.{IsFree, ConfirmPost, confirm-Post}
use webdav_serverless.Lock.Ops.Sound.Held.{StillHeld, IsOther}
use webdav_serverless.Lock.Ops.Sound.Excluded.{Any, held-IsExcluded}

abbrev no_locks : MemLs
no_locks = record { by_name = []; by_token = []; gen = 0; by_expiry = [] }

abbrev details : LockDetails
details = record { lock_root = codes "/a"; duration = none; owner_xml = []; zero_depth = false }

abbrev node : ℕ → Bytes → Bytes → Bool → Node
node count name token is_held = record {
  details = record details { lock_root = name };
  token = token;
  ref_count = count;
  expiry = 0;
  queued = false;
  held = is_held;
}

-- What is left by a LOCK of "/a": the node, and the one of the root.
abbrev one_lock : Bool → MemLs
one_lock is_held = record {
  by_name =
      (codes "/a", node 1 (codes "/a") (codes "1") is_held)
      ∷ (codes "/", node 1 (codes "/") [] false)
      ∷ [];
  by_token = (codes "1", codes "/a") ∷ [];
  gen = 1;
  by_expiry = [];
}

abbrev claims : List Condition
claims = record { is_not = false; token = codes "1"; etag = [] } ∷ []

alive : collect_expired_nodes 5 (one_lock false) ≡ some (one_lock false)
unfolding collect_expired_nodes
alive = refl

confirm_example :
    (r : LockResult Release) × (m : MemLs) × (confirm 5 (codes "/a/b") [] claims (one_lock false)
      ≡ some (r, m))
    × ConfirmPost (codes "/a/b") [] claims (one_lock false) r m
confirm_example = confirm-Post 5 (codes "/a/b") [] claims (one_lock false) (one_lock false) alive

confirmed :
    confirm 5 (codes "/a/b") [] claims (one_lock false)
    ≡ some (granted (some (codes "/a"), none), one_lock true)
unfolding confirm collect_expired_nodes lookup bytes_eq slash_clean has_prefix insert
confirmed = refl

abbrev elements : List Bytes
elements = codes "a" ∷ codes "bc" ∷ []

a-IsElement : IsElement (codes "a")
a-IsElement = record {
  not_empty = λ e. cc;
  not_dot = λ e. cc;
  not_dots = λ e. cc;
  no_slash = ground arith;
}

bc-IsElement : IsElement (codes "bc")
bc-IsElement = record {
  not_empty = λ e. cc;
  not_dot = λ e. cc;
  not_dots = λ e. cc;
  no_slash = ground arith;
}

walk_example : walk_to_root (rooted elements) ≡ map rooted (prefixes elements)
walk_example = walk_to_root-rooted elements (a-IsElement, (bc-IsElement, tt))

timeout_example :
    parse_timeout (seconds_prefix ++ format_uint 3600) ≡ lasts (some (3600 * 1000000000))
timeout_example = parse_timeout-format_uint 3600 (omega arith)

bound_example : Fits (parse_timeout (codes "Second-4294967295"))
bound_example = parse_timeout-Fits (codes "Second-4294967295")

release_example :
    (m : MemLs) × (release (some (codes "/a"), none) (one_lock true) ≡ some m)
    × IsFree m (some (codes "/a"))
    × IsFree m none
release_example =
    confirm-release 5 (codes "/a/b") [] claims (one_lock false) (one_lock false) (one_lock true)
      (some (codes "/a")) none alive confirmed

-- A lock of "/a" that ends at the time 4.
abbrev expiring : Node
expiring = record {
  details = record {
    lock_root = codes "/a";
    duration = some 3;
    owner_xml = [];
    zero_depth = false;
  };
  token = codes "1";
  ref_count = 1;
  expiry = 4;
  queued = true;
  held = false;
}

abbrev one_expiring : MemLs
one_expiring = record {
  by_name = (codes "/a", expiring) ∷ (codes "/", node 1 (codes "/") [] false) ∷ [];
  by_token = (codes "1", codes "/a") ∷ [];
  gen = 1;
  by_expiry = codes "/a" ∷ [];
}

walk-a : walk_to_root (codes "/a") ≡ codes "/a" ∷ codes "/" ∷ []
unfolding walk_to_root bytes_eq
walk-a = refl

-- A state with one lock, of "/a".
module _ (n : Node) (heap : List Bytes) (token : n.token ≡ codes "1")
    (own : n.details.lock_root ≡ codes "/a") (count : n.ref_count ≡ 1)
    (waits : n.queued ≡ (not n.held && expires n.details.duration)) (nodup : IsNodup heap)
    (left : (x : Bytes) → contains heap x ≡ (beq x (codes "/a") && n.queued)) where
  abbrev alone : MemLs
  alone = record {
    by_name = (codes "/a", n) ∷ (codes "/", node 1 (codes "/") [] false) ∷ [];
    by_token = (codes "1", codes "/a") ∷ [];
    gen = 1;
    by_expiry = heap;
  }

  alone-counts : (k : Bytes) → refs (lookup k alone.by_name) ≡ total k (codes "/a" ∷ [])
  unfolding lookup
  alone-counts k =
      ground (arith, count, beq→eq k (codes "/a"), beq→eq k (codes "/"))
      ∙ sym (ap (λ w. times k w + 0) walk-a)

  alone-IsLock : IsLock alone (codes "/a") n
  unfolding lookup
  alone-IsLock = record {
    at = ground (arith, beq_refl (codes "/a"));
    own = own;
    token = rw token (ground (arith, beq_refl (codes "1")));
    named = λ e. (let z : codes "1" ≡ [] = sym token ∙ e in cc);
    queue = left (codes "/a") ∙ ground (arith, beq_refl (codes "/a"));
    waits = waits;
  }

  alone-token :
      (t x : Bytes) (k : Node)
      → codes "/a" ≡ x
      → t ≡ codes "1"
      → lookup x alone.by_name ≡ some k
      → k.token ≡ t
  alone-token t x k to is at =
      let same : n ≡ k =
        some-injective n k (sym alone-IsLock.at ∙ ap (λ z. lookup z alone.by_name) to ∙ at) in
      ap (λ (q : Node). q.token) (sym same) ∙ token ∙ sym is

  alone-IsSound : IsSound alone (codes "/a" ∷ [])
  unfolding lookup contains
  alone-IsSound = record {
    counts = alone-counts;
    referred = λ k i found. ground (arith, found, count);
    nodup = nodup;
    unique = (refl, tt);
    locks = λ x h. (
      n,
      subst (λ z. IsLock alone z n) (sym (beq→eq x (codes "/a") (ground (arith, h)))) alone-IsLock,
    );
    heap = λ x h. ground (arith, left x, h);
    tokens = λ t x h.
        let to : codes "/a" ≡ x = ground (arith, h) in
        (
          ap (contains (codes "/a" ∷ [])) (sym to) ∙ ground (arith, beq_refl (codes "/a")),
          λ k at. alone-token t x k to (beq→eq t (codes "1") (ground (arith, h))) at,
        );
    rest = λ x k at h.
        (let same : node 1 (codes "/") [] false ≡ k =
            some-injective (node 1 (codes "/") [] false) k (ground (arith, at, h)) in
          subst IsUnlocked same (record { token = refl; queued = refl; held = refl }));
  }

expiring-IsSound : IsSound one_expiring (codes "/a" ∷ [])
unfolding contains
expiring-IsSound =
    alone-IsSound expiring (codes "/a" ∷ []) refl refl refl refl (refl, tt) (λ x. ground arith)

held-IsSound : IsSound (one_lock true) (codes "/a" ∷ [])
unfolding contains
held-IsSound =
    alone-IsSound (node 1 (codes "/a") (codes "1") true) [] refl refl refl refl tt
      (λ x. ground arith)

abbrev pub one_locked_state : MemLs
one_locked_state = one_lock true

abbrev pub one_locked_names : List Bytes
one_locked_names = codes "/a" ∷ []

pub one_locked-IsSound : IsSound one_locked_state one_locked_names
one_locked-IsSound = held-IsSound

held-IsAs : IsAs true (one_lock true) (codes "/a" ∷ []) (codes "/a")
unfolding contains lookup bytes_eq bytes_dec
held-IsAs = record {
  is_in = refl;
  node = node 1 (codes "/a") (codes "1") true;
  lock =
      alone-IsLock (node 1 (codes "/a") (codes "1") true) [] refl refl refl refl tt
        (λ x. ground arith);
  is_held = refl;
}

held-IsHolding : IsHolding (one_lock true) (codes "/a" ∷ []) (some (codes "/a"), none)
unfolding IsHolding
held-IsHolding = (held-IsAs, tt, λ x e. cc)

held_alive : collect_expired_nodes 5 (one_lock true) ≡ some (one_lock true)
unfolding collect_expired_nodes
held_alive = refl

next_free : lookup (next_token (one_lock true)).0 (one_lock true).by_token ≡ none
unfolding next_token format_uint lookup bytes_eq bytes_dec
next_free = refl

new_token :
    (rest : MemLs)
    → collect_expired_nodes 5 (one_lock true) ≡ some rest
    → lookup (next_token rest).0 rest.by_token ≡ none
new_token rest e =
    subst (λ r. lookup (next_token r).0 r.by_token ≡ none)
      (some-injective (one_lock true) rest (sym held_alive ∙ e)) next_free

methods-IsSound_example :
    Sound (create 5 details (one_lock true))
    × Sound (refresh 5 (codes "1") (some 3) (one_lock true))
    × Sound (unlock 5 (codes "1") (one_lock true))
    × Sound (confirm 5 (codes "/a") [] claims (one_lock true))
    × ((m : MemLs) × (release (some (codes "/a"), none) (one_lock true) ≡ some m)
        × IsSound m (codes "/a" ∷ []))
methods-IsSound_example =
    methods-IsSound 5 details (codes "1") (some 3) (codes "/a") [] claims (some (codes "/a"), none)
      (one_lock true) (codes "/a" ∷ []) held-IsSound new_token held-IsHolding

held-IsExcluded_example :
    StillHeld
      (codes "/a")
      (IsOther (codes "/a"))
      (confirm 5 (codes "/a/b") [] claims (one_lock true))
    × StillHeld (codes "/a") Any (create 5 details (one_lock true))
    × StillHeld (codes "/a") Any (refresh 5 (codes "1") none (one_lock true))
    × StillHeld (codes "/a") Any (unlock 5 (codes "1") (one_lock true))
held-IsExcluded_example =
    held-IsExcluded 5 details (codes "1") none (codes "/a/b") [] claims (one_lock true)
      (codes "/a" ∷ []) (codes "/a") held-IsSound new_token held-IsAs

expired_example :
    (m : MemLs) × (left : List Bytes) × (collect_expired_nodes 5 one_expiring ≡ some m)
    × IsSound m left
    × IsCurrent 5 m m.by_expiry
expired_example = collect_expired_nodes-IsSound 5 one_expiring (codes "/a" ∷ []) expiring-IsSound

create-IsCompatible_example :
    (((t : Bytes) × (m' : MemLs) × (create 5 details (one_lock true) ≡ some (granted t, m'))) ↔ (
      (l : Bytes) (n : Node)
      → contains (codes "/a" ∷ []) l ≡ true
      → lookup l (one_lock true).by_name ≡ some n
      → IsCompatible (slash_clean (codes "/a")) false l n))
    × ((create 5 details (one_lock true) ≡ some (refused locked, one_lock true))
        ⊎ ((t : Bytes) × (m' : MemLs) × (create 5 details (one_lock true) ≡ some (granted t, m'))))
create-IsCompatible_example =
    create-IsCompatible 5 details (one_lock true) (one_lock true) (codes "/a" ∷ []) held_alive
      held-IsSound
