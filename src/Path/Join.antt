-- ===== src/Path/Join.antt =====
-- path.Join of Go's package path, on two elements.
use webdav_serverless.Base.{[], ◌∷◌, ◌++◌, Bytes, codes, ◌≡◌, refl}
use webdav_serverless.Path.{slash, clean}

-- path.Join: empty elements are left out.
unfoldable pub join : Bytes → Bytes → Bytes
unfolding clean
join [] [] = []
join [] (c ∷ s) = clean (c ∷ s)
join (d ∷ r) [] = clean (d ∷ r)
join (d ∷ r) (c ∷ s) = clean ((d ∷ r) ++ slash ∷ c ∷ s)

test_join : join (codes "a/") (codes "b") ≡ codes "a/b"
unfolding join
test_join = refl

test_join_rooted : join (codes "/a") (codes "b") ≡ codes "/a/b"
unfolding join
test_join_rooted = refl
