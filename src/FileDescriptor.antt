-- ===== src/FileDescriptor.antt =====
-- include/calc/file_descriptor.hpp: the owner of a descriptor. The calls of `close` are kept in a log.
pub mod Ownership
use network_arc_rajasurya.Prelude.{
  ℕ, Bool, true, false, List, [], ◌∷◌, ◌++◌, ◌&&◌, not, zero, suc, length, ltb, ◌==◌, if◌then◌else◌,
  set,
}
use network_arc_rajasurya.Prelude.Int.{ℤ, pos, negsuc}

pub record FileDescriptor : Type 0 where
  pub fd : ℤ

-- -1, the value of an owner that owns nothing.
abbrev pub no_fd : ℤ
no_fd = negsuc 0

-- `explicit FileDescriptor(int fd)`, with the default of `fd_` for the other constructor.
abbrev pub new_descriptor : ℤ → FileDescriptor
new_descriptor fd = record { fd = fd }

abbrev pub is_fd : ℤ → Bool
is_fd (pos n) = true
is_fd (negsuc n) = false

unfoldable pub valid : FileDescriptor → Bool
valid d = is_fd d.fd

unfoldable pub release : FileDescriptor → ℤ × FileDescriptor
release d = (d.fd, record d { fd = no_fd })

unfoldable pub reset : FileDescriptor → ℤ → List ℤ → FileDescriptor × List ℤ
reset d fd closes = (record d { fd = fd }, if is_fd d.fd then closes ++ d.fd ∷ [] else closes)

-- The destructor.
unfoldable pub destroy : FileDescriptor → List ℤ → List ℤ
unfolding reset
destroy d closes = (reset d no_fd closes).1

-- The objects that are alive, and the calls of `close` so far. The descriptors that were handed to an
-- owner and those that an owner gave up by `release` are noted beside them.
pub record Owners : Type 0 where
  pub objects : List FileDescriptor
  pub closes : List ℤ
  pub adopted : List ℤ
  pub released : List ℤ

-- What a program does with its owners; an object goes by its place.
pub data Action : Type 0 where
  construct : ℤ → Action
  move_construct : ℕ → Action
  -- `objects[i] = std::move(objects[j])`
  move_assign : ℕ → ℕ → Action
  release_at : ℕ → Action
  reset_at : ℕ → ℤ → Action

abbrev pub object_at : List FileDescriptor → ℕ → FileDescriptor
object_at [] i = new_descriptor no_fd
object_at (d ∷ ds) zero = d
object_at (d ∷ ds) (suc i) = object_at ds i

-- `objects[i].reset(fd)`, and what `objects[i].release()` leaves.
unfoldable pub reset_object : ℕ → ℤ → Owners → Owners
unfolding reset
reset_object i fd o =
    let d = object_at o.objects i in
    record o { objects = set o.objects i (reset d fd o.closes).0; closes = (reset d fd o.closes).1 }

unfoldable pub release_object : ℕ → Owners → Owners
unfolding release
release_object i o = record o { objects = set o.objects i (release (object_at o.objects i)).1 }

abbrev pub exists_at : Owners → ℕ → Bool
exists_at o i = ltb i (length o.objects)

-- Only objects that exist can be named.
unfoldable pub act : Owners → Action → Owners
act o (construct fd) = record o {
  objects = o.objects ++ new_descriptor fd ∷ [];
  adopted = o.adopted ++ fd ∷ [];
}
act o (move_construct j) =
    let moved = release_object j o in
    if exists_at o j
    then record moved { objects = moved.objects ++ new_descriptor (object_at o.objects j).fd ∷ [] }
    else o
act o (move_assign i j) =
    if exists_at o i && exists_at o j && not (i == j)
    then reset_object i (object_at o.objects j).fd (release_object j o)
    else o
act o (release_at i) =
    if exists_at o i
    then record (release_object i o) { released = o.released ++ (object_at o.objects i).fd ∷ [] }
    else o
act o (reset_at i fd) =
    if exists_at o i then record (reset_object i fd o) { adopted = o.adopted ++ fd ∷ [] } else o

unfoldable pub act_all : Owners → List Action → Owners
act_all o [] = o
act_all o (a ∷ actions) = act_all (act o a) actions

-- The destructors of all objects, at the end of their scopes.
unfoldable pub destroy_all : List FileDescriptor → List ℤ → List ℤ
destroy_all [] closes = closes
destroy_all (d ∷ ds) closes = destroy_all ds (destroy d closes)

abbrev pub no_owners : Owners
no_owners = record { objects = []; closes = []; adopted = []; released = [] }
