-- ===== src/FileTree/Kept.antt =====
-- webdav/file.go: what moveFiles and copyFiles leave of a view that the file system's operations keep.
use webdav_serverless.Base.{ℕ, zero, suc, Bool, true, false, List, [], ◌∷◌, Bytes, ◌≡◌}
use webdav_serverless.Errors.{Result, ok, err}
use webdav_serverless.Answers.{check}
use webdav_serverless.Answers.Keeps.{Keeps, keeps_rules, Keeps-if, Keeps-bind, Keeps-deferred}
use webdav_serverless.Files.{Info, Content, file, FileSystem}
use webdav_serverless.FileTree.{
  clear_target, move_files, unless_missing, clear_copy, Copy, copy_children, copy_below,
  copy_content, copy_opened, copy_files, deferred, missing_or,
}

-- No operation of the file system changes the view, which shows another part of the state.
pub record FileLaws {S F L : Type 0} (fs : FileSystem S F) (view : S → L) : Type 0 where
  pub mkdir_keeps : (p : Bytes) (perm : ℕ) → Keeps view (fs.mkdir p perm)
  pub open_keeps : (p : Bytes) (writable : Bool) → Keeps view (fs.open_file p writable)
  pub create_keeps : (p : Bytes) (perm : ℕ) (c : Content F) → Keeps view (fs.create p perm c)
  pub remove_all_keeps : (p : Bytes) → Keeps view (fs.remove_all p)
  pub rename_keeps : (p q : Bytes) → Keeps view (fs.rename p q)
  pub stat_keeps : (p : Bytes) → Keeps view (fs.stat p)
  pub file_stat_keeps : (f : F) → Keeps view (fs.file_stat f)
  pub readdir_keeps : (f : F) → Keeps view (fs.readdir f)
  pub close_keeps : (f : F) (s : S) → view (fs.close f s) ≡ view s

module _ {S F L : Type 0} {fs : FileSystem S F} {view : S → L} (laws : FileLaws fs view) where
  clear_target-Keeps :
      (dst : Bytes) (overwrite : Bool) (r : Result Info)
      → Keeps view (clear_target fs dst overwrite r)
  unfolding clear_target
  clear_target-Keeps dst overwrite (err e) = search keeps_rules
  clear_target-Keeps dst false (ok i) = search keeps_rules
  clear_target-Keeps dst true (ok i) = search (keeps_rules, laws.remove_all_keeps dst)

  pub move_files-Keeps :
      (src dst : Bytes) (overwrite : Bool) → Keeps view (move_files fs src dst overwrite)
  unfolding move_files
  move_files-Keeps src dst overwrite = search (
    keeps_rules,
    laws.stat_keeps dst,
    laws.rename_keeps src dst,
    clear_target-Keeps dst overwrite,
  )

  unless_missing-Keeps : (r : Result (Unit {0})) → Keeps view (unless_missing fs r)
  unless_missing-Keeps (ok _) = search keeps_rules
  unless_missing-Keeps (err e) = search keeps_rules

  clear_copy-Keeps :
      (dst : Bytes) (overwrite : Bool) (r : Result Info)
      → Keeps view (clear_copy fs dst overwrite r)
  unfolding clear_copy
  clear_copy-Keeps dst overwrite (err e) = search keeps_rules
  clear_copy-Keeps dst false (ok i) = search keeps_rules
  clear_copy-Keeps dst true (ok i) =
      search (keeps_rules, laws.remove_all_keeps dst, unless_missing-Keeps)

  -- The copy of a child, which is known to keep the view.
  module _ (copy : Copy fs) (kept : (s d : Bytes) → Keeps view (copy s d)) where
    copy_children-Keeps :
        (src dst : Bytes) (cs : List Info) → Keeps view (copy_children fs copy src dst cs)
    unfolding copy_children
    copy_children-Keeps src dst [] = search keeps_rules
    copy_children-Keeps src dst (c ∷ cs) =
        Keeps-bind view _ _ (kept _ _) λ _. copy_children-Keeps src dst cs

    copy_below-Keeps :
        (f : F) (src dst : Bytes) (deep : Bool) → Keeps view (copy_below fs copy f src dst deep)
    copy_below-Keeps f src dst false = search keeps_rules
    copy_below-Keeps f src dst true =
        search (keeps_rules, laws.readdir_keeps f, copy_children-Keeps src dst)

    copy_content-Keeps :
        (f : F) (i : Info) (src dst : Bytes) (deep : Bool)
        → Keeps view (copy_content fs copy f i src dst deep)
    copy_content-Keeps f i src dst deep =
        Keeps-if view i.is_dir _ _
          (Keeps-bind view _ _ (search (keeps_rules, laws.mkdir_keeps dst i.perm))
            λ _. copy_below-Keeps f src dst deep)
          (search (keeps_rules, laws.create_keeps dst i.perm (file f)))

    copy_opened-Keeps :
        (f : F) (src dst : Bytes) (overwrite deep : Bool)
        → Keeps view (copy_opened fs copy f src dst overwrite deep)
    copy_opened-Keeps f src dst overwrite deep = search (
      keeps_rules,
      laws.file_stat_keeps f,
      laws.stat_keeps dst,
      clear_copy-Keeps dst overwrite,
      λ (i : Info). copy_content-Keeps f i src dst deep,
    )

  pub copy_files-Keeps :
      (left : ℕ) (src dst : Bytes) (overwrite deep : Bool)
      → Keeps view (copy_files fs left src dst overwrite deep)
  unfolding copy_files
  copy_files-Keeps zero src dst overwrite deep = search keeps_rules
  copy_files-Keeps (suc left) src dst overwrite deep =
      Keeps-bind view (check (missing_or 404 500) (fs.open_file src false))
        (λ f.
          deferred (fs.close f) (
            copy_opened fs (λ s d. copy_files fs left s d overwrite deep) f src dst overwrite deep))
        (search (keeps_rules, laws.open_keeps src false))
        λ f. Keeps-deferred view (fs.close f) _ (laws.close_keeps f) (
          copy_opened-Keeps (λ s d. copy_files fs left s d overwrite deep)
            (λ s d. copy_files-Keeps left s d overwrite deep) f src dst overwrite deep)
