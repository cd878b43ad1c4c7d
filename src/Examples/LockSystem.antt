-- ===== src/Examples/LockSystem.antt =====
-- memLS as the lock system of the handler, on the states that its methods keep. Where a method would
-- panic, or the counter of the tokens has come round to one in use, the call does nothing.
use mathlib.Core.Option.{some-injective}
use webdav_serverless.Base.{
  ℕ, ◌≤◌, Bool, true, false, Option, none, some, List, ◌≡◌, refl, sym, ap, ◌∙◌, subst, Bytes,
  bytes_eq, bytes_dec, beq_ne, beq_refl, contains, arith,
}
use webdav_serverless.Base.Dict.{lookup}
use webdav_serverless.Lock.{
  Node, MemLs, LockDetails, LockError, LockResult, granted, refused, locked,
}
use webdav_serverless.Lock.Ops.{
  create, refresh, unlock, confirm, next_token, collect_expired_nodes, Release,
}
use webdav_serverless.Lock.Ops.Sound.{IsSound, IsLock}
use webdav_serverless.Lock.Ops.Sound.Changed.{unhold-IsHeld}
use webdav_serverless.Lock.Ops.Sound.Methods.{Sound, create-Sound, refresh-Sound, unlock-Sound}
use webdav_serverless.Lock.Ops.Sound.Confirming.{confirm-Sound}
use webdav_serverless.Lock.Ops.Sound.Shown.{Lock, shown, IsUnheld, unlock-shown}
use webdav_serverless.Lock.Ops.Sound.Granted.{Creates, create-Creates, refresh-refused}
use webdav_serverless.Handler.{LockSystem}
use webdav_serverless.Handler.TemporaryLocks.{LockLaws}

pub record SoundLs : Type 0 where
  pub memory : MemLs
  pub names : List Bytes
  pub sound : IsSound memory names

-- The state that a method leaves, and its answer, or `b` where it would panic.
abbrev left_by :
    {A : Type 0} (s : SoundLs) (o : Option (A × MemLs))
    → Sound o
    → A
    → (u : Option (A × MemLs)) → o ≡ u
    → A × SoundLs
left_by s o h b none e = (b, s)
left_by s o h b (some (a, m)) e =
    let (a', m', ls', done, sound') = h in
    (
      a,
      record {
        memory = m;
        names = ls';
        sound =
            subst (λ k. IsSound k ls')
              (ap (λ p. p.1) (some-injective (a', m') (a, m) (sym done ∙ e))) sound';
      },
    )

left_by-eq :
    {A : Type 0} (s : SoundLs) (o : Option (A × MemLs)) (h : Sound o) (b : A)
    (u : Option (A × MemLs)) (e : o ≡ u) (a : A) (m : MemLs)
    → u ≡ some (a, m)
    → ((left_by s o h b u e).0 ≡ a) × ((left_by s o h b u e).1.memory ≡ m)
left_by-eq s o h b none e a m k = cc
left_by-eq s o h b (some (a', m')) e a m k =
    let is : (a', m') ≡ (a, m) = some-injective (a', m') (a, m) k in
    (ap (λ p. p.0) is, ap (λ p. p.1) is)

-- Whether the next token is not in use.
abbrev is_none : Option Bytes → Bool
is_none none = true
is_none (some x) = false

abbrev free_in : Option MemLs → Bool
free_in none = false
free_in (some r) = is_none (lookup (next_token r).0 r.by_token)

abbrev next_free : ℕ → MemLs → Bool
next_free now m = free_in (collect_expired_nodes now m)

is_none-none : (o : Option Bytes) → is_none o ≡ true → o ≡ none
is_none-none none h = refl
is_none-none (some x) h = cc

pub next_free-none :
    (now : ℕ) (m : MemLs)
    → next_free now m ≡ true
    → (rest : MemLs) → collect_expired_nodes now m ≡ some rest
    → lookup (next_token rest).0 rest.by_token ≡ none
next_free-none now m h rest e = is_none-none _ (sym (ap free_in e) ∙ h)

abbrev create_if :
    (now : ℕ) (d : LockDetails) (s : SoundLs) (b : Bool)
    → next_free now s.memory ≡ b
    → LockResult Bytes × SoundLs
create_if now d s false e = (refused locked, s)
create_if now d s true e =
    left_by s (create now d s.memory)
      (create-Sound now d s.memory s.names s.sound (next_free-none now s.memory e)) (refused locked)
      (create now d s.memory) refl

create_if-Creates :
    (end now : ℕ) (d : LockDetails) (s : SoundLs) (b : Bool) (e : next_free now s.memory ≡ b)
    → now ≤ end
    → Creates end s.memory (create_if now d s b e).0 (create_if now d s b e).1.memory
unfolding Creates
create_if-Creates end now d s false e le = λ t. refl
create_if-Creates end now d s true e le =
    let new = next_free-none now s.memory e in
    let (a, m, left, done, _, creates) = create-Creates end now d s.memory s.names le s.sound new in
    let (p, q) =
      left_by-eq s (create now d s.memory) (create-Sound now d s.memory s.names s.sound new)
        (refused locked) (create now d s.memory) refl a m done in
    subst (λ r. Creates end s.memory r (create_if now d s true e).1.memory) (sym p)
      (subst (Creates end s.memory a) (sym q) creates)

abbrev refresh_in :
    (now : ℕ) (t : Bytes) (duration : Option ℕ) (s : SoundLs) → LockResult LockDetails × SoundLs
refresh_in now t duration s =
    left_by s (refresh now t duration s.memory)
      (refresh-Sound now t duration s.memory s.names s.sound) (refused locked)
      (refresh now t duration s.memory) refl

abbrev unlock_in : (now : ℕ) (t : Bytes) (s : SoundLs) → LockResult (Unit {0}) × SoundLs
unlock_in now t s =
    left_by s (unlock now t s.memory) (unlock-Sound now t s.memory s.names s.sound) (refused locked)
      (unlock now t s.memory) refl

abbrev error_of : LockResult (Unit {0}) → Option LockError
error_of (granted u) = none
error_of (refused e) = some e

-- unhold of a lock that is held.
abbrev unhold_held :
    (s : SoundLs) (x : Bytes)
    → contains s.names x ≡ true
    → (n : Node) → IsLock s.memory x n
    → (b : Bool) → n.held ≡ b
    → SoundLs
unhold_held s x is_in n l false h = s
unhold_held s x is_in n l true h =
    let (m, done, k) = unhold-IsHeld s.memory s.names s.sound x n is_in l h in
    record { memory = m; names = s.names; sound = k.kept }

abbrev unhold_listed : (s : SoundLs) (x : Bytes) (b : Bool) → contains s.names x ≡ b → SoundLs
unhold_listed s x false e = s
unhold_listed s x true e = let (n, l) = s.sound.locks x e in unhold_held s x e n l n.held refl

abbrev unhold_in : Option Bytes → SoundLs → SoundLs
unhold_in none s = s
unhold_in (some x) s = unhold_listed s x (contains s.names x) refl

abbrev confirm_answer : LockResult Release × SoundLs → LockResult (SoundLs → SoundLs) × SoundLs
confirm_answer (granted (n0, n1), s) = (granted (λ t. unhold_in n0 (unhold_in n1 t)), s)
confirm_answer (refused e, s) = (refused e, s)

abbrev pub mem_ls : LockSystem SoundLs
mem_ls = record {
  confirm = λ now name0 name1 conditions s. confirm_answer (
      left_by s (confirm now name0 name1 conditions s.memory)
        (confirm-Sound now name0 name1 conditions s.memory s.names s.sound) (refused locked)
        (confirm now name0 name1 conditions s.memory) refl);
  create = λ now d s. create_if now d s (next_free now s.memory) refl;
  refresh = refresh_in;
  unlock = λ now t s. (let (a, u) = unlock_in now t s in (error_of a, u));
}

-- The locks that do not end by a time.
abbrev pub locks_to : ℕ → SoundLs → Bytes → Option Lock
locks_to end s = shown end s.memory

mem_ls-created :
    (end now : ℕ) (d : LockDetails) (r : LockResult Bytes × SoundLs) (s : SoundLs)
    → now ≤ end
    → mem_ls.create now d s ≡ r
    → Creates end s.memory r.0 r.1.memory
mem_ls-created end now d r s le h =
    subst (λ (r : LockResult Bytes × SoundLs). Creates end s.memory r.0 r.1.memory) h
      (create_if-Creates end now d s (next_free now s.memory) refl le)

mem_ls-unlocked :
    (end now : ℕ) (d : LockDetails) (x : Bytes) (s t u : SoundLs)
    → now ≤ end
    → mem_ls.create now d s ≡ (granted x, t)
    → locks_to end u ≡ locks_to end t
    → (v : Bytes) → locks_to end (unlock_in now x u).1 v ≡ locks_to end s v
unfolding Creates
mem_ls-unlocked end now d x s t u le h k v =
    let (_, gone, free, others) = mem_ls-created end now d (granted x, t) s le h in
    let same : (v : Bytes) → locks_to end u v ≡ locks_to end t v = λ v. ap (λ f. f v) k in
    let (a, m, done, rest) =
      unlock-shown end now x u.memory u.names le u.sound (subst IsUnheld (sym (same x)) free) in
    let (_, q) =
      left_by-eq u (unlock now x u.memory) (unlock-Sound now x u.memory u.names u.sound)
        (refused locked) (unlock now x u.memory) refl a m done in
    ap (λ m. shown end m v) q ∙ rest v ∙ (elim (bytes_dec v x) [
      | yes e ↦ rw (e, beq_refl x) (sym gone)
      | no ne ↦ rw (beq_ne v x ne) (same v ∙ others v ne)
    ])

mem_ls-refreshed :
    (end now : ℕ) (x : Bytes) (d : Option ℕ) (e : LockError) (s t : SoundLs)
    → now ≤ end
    → (o : Option (LockResult LockDetails × MemLs)) → (q : refresh now x d s.memory ≡ o)
    → left_by s
        (refresh now x d s.memory)
        (refresh-Sound now x d s.memory s.names s.sound)
        (refused locked)
        o
        q
      ≡ (refused e, t)
    → (v : Bytes) → locks_to end t v ≡ locks_to end s v
mem_ls-refreshed end now x d e s t le none q h v =
    let is : s ≡ t = ap (λ (p : LockResult LockDetails × SoundLs). p.1) h in
    ap (λ k. locks_to end k v) (sym is)
mem_ls-refreshed end now x d e s t le (some (a, m)) q h v =
    let is : a ≡ refused e = ap (λ (p : LockResult LockDetails × SoundLs). p.0) h in
    let to : m ≡ t.memory = ap (λ (p : LockResult LockDetails × SoundLs). p.1.memory) h in
    refresh-refused end now x d s.memory t.memory s.names e le s.sound
      (q ∙ ap (λ a. some (a, m)) is ∙ ap (λ m. some (refused e, m)) to) v

pub mem_ls-LockLaws : (end : ℕ) → LockLaws mem_ls end (locks_to end)
unfolding Creates
mem_ls-LockLaws end = record {
  refused_lock = λ now d e s t le h i v. mem_ls-created end now d (refused e, t) s le h v i;
  token = λ now d x s t h.
      (let (named, _, _, _) = mem_ls-created now now d (granted x, t) s (omega arith) h in named);
  last_lock = λ now d x s t u le h k i v. mem_ls-unlocked end now d x s t u le h k v i;
  refused_refresh = λ now x d e s t le h i v.
      mem_ls-refreshed end now x d e s t le (refresh now x d s.memory) refl h v i;
}
