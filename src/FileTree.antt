-- ===== src/FileTree.antt =====
-- webdav/file.go: moveFiles and copyFiles over a FileSystem, with walkFS in a child.
pub mod Walk
pub mod Kept
use webdav_serverless.Base.{
  ℕ, zero, suc, Bool, true, false, List, [], ◌∷◌, map, Bytes, if◌then◌else◌,
}
use webdav_serverless.Errors.{Error, Result, ok, err, Effect, is_not_exist}
use webdav_serverless.Errors as Errors
use webdav_serverless.Answers.{
  Answer, proceed, answer, Serve, pure, refuse, attempt, check, deferred, ◌>>=◌, ◌>>◌,
}
use webdav_serverless.Path.Join.{join}
use webdav_serverless.Property.{Propstat}
use webdav_serverless.Files.{Info, Content, file, FileSystem}

abbrev pub missing_or : ℕ → ℕ → Error → ℕ
missing_or missing other e = if is_not_exist e then missing else other

module _ {S F : Type 0} (fs : FileSystem S F) where
  -- What moveFiles does with the Stat of the destination; whether the destination is created.
  unfoldable pub clear_target : Bytes → Bool → Result Info → Serve S Bool
  clear_target dst overwrite (err e) = if is_not_exist e then pure true else refuse 403
  clear_target dst false (ok i) = refuse 412
  clear_target dst true (ok i) = do check (λ e. 403) (fs.remove_all dst); pure false

  abbrev pub success : Bool → ℕ
  success created = if created then 201 else 204

  unfoldable pub move_files : Bytes → Bytes → Bool → Serve S ℕ
  unfolding clear_target
  move_files src dst overwrite = do
    found ← attempt (fs.stat dst)
    created ← clear_target dst overwrite found
    check (λ e. 403) (fs.rename src dst)
    pure (if created then 201 else 204)

  -- copyFiles ignores that the destination is gone when it is removed.
  abbrev pub unless_missing : Result (Unit {0}) → Serve S Bool
  unless_missing (ok _) = pure false
  unless_missing (err e) = if is_not_exist e then pure false else refuse 403

  unfoldable pub clear_copy : Bytes → Bool → Result Info → Serve S Bool
  clear_copy dst overwrite (err e) = if is_not_exist e then pure true else refuse 403
  clear_copy dst false (ok i) = refuse 412
  clear_copy dst true (ok i) = do removed ← attempt (fs.remove_all dst); unless_missing removed

  abbrev pub Copy : Type 0
  Copy = Bytes → Bytes → Serve S ℕ

  -- The loop over the children, with the recursive call.
  unfoldable pub copy_children : Copy → Bytes → Bytes → List Info → Serve S (Unit {0})
  copy_children copy src dst [] = pure tt
  copy_children copy src dst (c ∷ cs) = do
    status ← copy (join src c.name) (join dst c.name)
    copy_children copy src dst cs

  abbrev pub copy_below : Copy → F → Bytes → Bytes → Bool → Serve S (Unit {0})
  copy_below copy f src dst false = pure tt
  copy_below copy f src dst true = do
    children ← check (λ e. 403) (fs.readdir f)
    copy_children copy src dst children

  abbrev pub copy_content : Copy → F → Info → Bytes → Bytes → Bool → Serve S (Unit {0})
  copy_content copy f i src dst infinite =
      if i.is_dir
      then (do check (λ e. 403) (fs.mkdir dst i.perm); copy_below copy f src dst infinite)
      else (do made ← check (missing_or 409 403) (fs.create dst i.perm (file f)); pure tt)

  abbrev pub copy_opened : Copy → F → Bytes → Bytes → Bool → Bool → Serve S ℕ
  copy_opened copy f src dst overwrite infinite = do
    i ← check (missing_or 404 500) (fs.file_stat f)
    found ← attempt (fs.stat dst)
    created ← clear_copy dst overwrite found
    copy_content copy f i src dst infinite
    pure (if created then 201 else 204)

  -- copyFiles with the recursions that are left, of 1000; `infinite` says that depth is infiniteDepth.
  unfoldable pub copy_files : ℕ → Bytes → Bytes → Bool → Bool → Serve S ℕ
  unfolding clear_copy copy_children
  copy_files zero src dst overwrite infinite = refuse 500
  copy_files (suc left) src dst overwrite infinite = do
    f ← check (missing_or 404 500) (fs.open_file src false)
    deferred (fs.close f)
        (copy_opened (λ s d. copy_files left s d overwrite infinite) f src dst overwrite infinite)
