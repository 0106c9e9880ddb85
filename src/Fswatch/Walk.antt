-- ===== src/Fswatch/Walk.antt =====
-- `addRecursive` of internal/fswatch/fswatch.go: `filepath.WalkDir` over a tree, with the function
-- that skips ignored paths and adds each directory to the watcher. What stands in the file system,
-- and which directories fsnotify accepts, are arguments.
pub mod Visible
use googlysync.Prelude.{
  Bool, true, false, Option, none, some, List, [], ◌∷◌, ◌++◌, if◌then◌else◌, Str,
}

-- A file system as `WalkDir` meets it: each entry with its path, the entries of a directory in
-- lexical order. `unreadable` is a directory whose entries cannot be read.
mutual
  pub data Tree : Type 0 where
    file : Str → Tree
    dir : Str → Forest → Tree
    unreadable : Str → Tree

  pub data Forest : Type 0 where
    nil : Forest
    cons : Tree → Forest → Forest

-- The directories added so far, and whether the walk goes on.
abbrev pub Walk : Type 0
Walk = List Str × Bool

module _ (ignored : Str → Bool) (accepts : Str → Bool) where
  -- `w.watcher.Add(path)`, and then the entries
  visit_dir : Str → (List Str → Walk) → List Str → Walk
  visit_dir path entries added =
      if ignored path
      then (added, true)
      else if accepts path
      then entries (added ++ path ∷ [])
      else (added, false)

  unfoldable mutual
    unfolding visit_dir

    pub walk : Tree → List Str → Walk
    walk (file path) added = (added, true)
    walk (dir path entries) added = visit_dir path (walk_all entries) added
    walk (unreadable path) added = visit_dir path (λ acc. (acc, false)) added

    pub walk_all : Forest → List Str → Walk
    walk_all nil added = (added, true)
    walk_all (cons t ts) added =
        let (acc, more) = walk t added in
        elim more [ true ↦ walk_all ts acc | false ↦ (acc, false) ]

  -- `none` is a root that does not exist. The result is true where no error is returned.
  unfoldable pub add_recursive : Option Tree → List Str → Walk
  add_recursive none added = (added, false)
  add_recursive (some t) added = walk t added
