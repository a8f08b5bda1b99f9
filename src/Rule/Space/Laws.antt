-- ===== src/Rule/Space/Laws.antt =====
-- internal/rule/space.go: how the mounts are grouped into filesystems, and when Space says FAIL.
use kbdiag.Prelude.{
  Bool, true, String, List, [], ◌∷◌, ◌&&◌, ◌||◌, not, any, any-append, str_eq, eq_iff, ◌≡◌, refl,
  arith,
}
use kbdiag.Facts.Space.{Mount}
use kbdiag.Rule.Space.{Filesystem, mount_id, add_mount, group_mounts}

abbrev pub has_id : String → List Filesystem → Bool
has_id id fs = any (λ f. str_eq f.id id) fs

abbrev pub ids_distinct : List Filesystem → Bool
ids_distinct [] = true
ids_distinct (f ∷ fs) = not (has_id f.id fs) && ids_distinct fs

-- The filesystem with that id has that path.
abbrev pub holds : String → String → List Filesystem → Bool
holds id path fs = any (λ f. str_eq f.id id && any (λ p. str_eq p path) f.paths) fs

add_mount-has_id :
    (m : Mount) (fs : List Filesystem) (id : String)
    → has_id id (add_mount m fs) ≡ (str_eq (mount_id m) id || has_id id fs)
unfolding add_mount
add_mount-has_id m [] id = ground arith
add_mount-has_id m (f ∷ fs) id = ground (arith, add_mount-has_id m fs id, eq_iff f.id (mount_id m))

add_mount-distinct :
    (m : Mount) (fs : List Filesystem)
    → ids_distinct fs ≡ true
    → ids_distinct (add_mount m fs) ≡ true
unfolding add_mount
add_mount-distinct m [] d = refl
add_mount-distinct m (f ∷ fs) d = ground (
  arith,
  add_mount-distinct m fs,
  add_mount-has_id m fs f.id,
  eq_iff f.id (mount_id m),
  eq_iff (mount_id m) f.id,
)

add_mount-holds :
    (m : Mount) (fs : List Filesystem) (id path : String)
    → holds id path (add_mount m fs)
      ≡ (str_eq (mount_id m) id && str_eq m.path path || holds id path fs)
unfolding add_mount
add_mount-holds m [] id path = ground arith
add_mount-holds m (f ∷ fs) id path = ground (
  arith,
  add_mount-holds m fs id path,
  any-append (λ p. str_eq p path) f.paths (m.path ∷ []),
  eq_iff f.id (mount_id m),
)

abbrev pub is_mounted_on : String → String → Mount → Bool
is_mounted_on id path m =
    (str_eq m.kind "data_directory" || str_eq m.kind "wal")
    && str_eq (mount_id m) id
    && str_eq m.path path

group_mounts-holds :
    (ms : List Mount) (fs : List Filesystem) (id path : String)
    → holds id path (group_mounts ms fs) ≡ (any (is_mounted_on id path) ms || holds id path fs)
unfolding group_mounts
group_mounts-holds [] fs id path = refl
group_mounts-holds (m ∷ ms) fs id path = ground (
  arith,
  group_mounts-holds ms fs id path,
  group_mounts-holds ms (add_mount m fs) id path,
  add_mount-holds m fs id path,
)

group_mounts-ids :
    (ms : List Mount) (fs : List Filesystem)
    → ids_distinct fs ≡ true
    → ids_distinct (group_mounts ms fs) ≡ true
unfolding group_mounts
group_mounts-ids [] fs d = d
group_mounts-ids (m ∷ ms) fs d = ground (
  arith,
  group_mounts-ids ms fs d,
  group_mounts-ids ms (add_mount m fs),
  add_mount-distinct m fs d,
)

-- Grouping the mounts yields each filesystem once, and a path lies on the filesystem of an id
-- exactly when a mount of the data directory or the WAL has that id and path.
pub group_mounts-filesystems :
    (ms : List Mount)
    → (ids_distinct (group_mounts ms []) ≡ true)
      × ((id path : String) → holds id path (group_mounts ms []) ≡ any (is_mounted_on id path) ms)
group_mounts-filesystems ms =
    (group_mounts-ids ms [] refl, λ id path. ground (arith, group_mounts-holds ms [] id path))
