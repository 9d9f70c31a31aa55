-- ===== src/FileDescriptor/Ownership.antt =====
-- include/calc/file_descriptor.hpp: every descriptor that an owner was given is closed exactly once,
-- unless it was released.
use network_arc_rajasurya.Prelude.{
  ℕ, zero, suc, ◌+◌, ◌≡◌, refl, ap, true, ◌&&◌, not, List, [], ◌∷◌, ◌++◌, ◌==◌, if◌then◌else◌,
  arith, set, length, ltb, length-set, either_case,
}
use network_arc_rajasurya.Prelude.Int.{ℤ, pos, negsuc}
use network_arc_rajasurya.FileDescriptor.{
  FileDescriptor, new_descriptor, no_fd, release, reset, destroy, Owners, Action, construct,
  move_construct, move_assign, release_at, reset_at, object_at, reset_object, release_object,
  exists_at, act, act_all, destroy_all, no_owners,
}

-- Whether a value is the descriptor `n`.
abbrev pub is_this : ℕ → ℤ → ℕ
is_this n (pos m) = if m == n then 1 else 0
is_this n (negsuc m) = 0

-- How often the descriptor stands in a log, and how many owners it has.
abbrev pub count : ℕ → List ℤ → ℕ
count n [] = 0
count n (fd ∷ fds) = is_this n fd + count n fds

abbrev pub owners : ℕ → List FileDescriptor → ℕ
owners n [] = 0
owners n (d ∷ ds) = is_this n d.fd + owners n ds

count-append : (n : ℕ) (xs ys : List ℤ) → count n (xs ++ ys) ≡ count n xs + count n ys
count-append n [] ys = omega arith
count-append n (x ∷ xs) ys = omega (arith, count-append n xs ys)

owners-append :
    (n : ℕ) (xs ys : List FileDescriptor) → owners n (xs ++ ys) ≡ owners n xs + owners n ys
owners-append n [] ys = omega arith
owners-append n (x ∷ xs) ys = omega (arith, owners-append n xs ys)

owners-set :
    (n : ℕ) (xs : List FileDescriptor) (i : ℕ) (d : FileDescriptor)
    → ltb i (length xs) ≡ true
    → owners n (set xs i d) + is_this n (object_at xs i).fd ≡ owners n xs + is_this n d.fd
owners-set n [] i d h = ground arith
owners-set n (x ∷ xs) zero d h = omega arith
owners-set n (x ∷ xs) (suc i) d h = omega (arith, owners-set n xs i d (ground arith))

-- Each descriptor is owned, closed or released as often as it was handed over.
pub record Balanced (n : ℕ) (o : Owners) : Type 0 where
  pub balance : owners n o.objects + count n o.closes + count n o.released ≡ count n o.adopted

reset-closes :
    (n : ℕ) (d : FileDescriptor) (fd : ℤ) (closes : List ℤ)
    → count n (reset d fd closes).1 ≡ count n closes + is_this n d.fd
unfolding reset
reset-closes n d fd closes = ground (arith, count-append n closes (d.fd ∷ []))

reset-fd : (d : FileDescriptor) (fd : ℤ) (closes : List ℤ) → (reset d fd closes).0.fd ≡ fd
unfolding reset
reset-fd d fd closes = refl

-- One owner is reset: what it had is closed, and what it gets is owned.
reset_object-total :
    (n i : ℕ) (fd : ℤ) (o : Owners)
    → exists_at o i ≡ true
    → owners n (reset_object i fd o).objects + count n (reset_object i fd o).closes
      ≡ owners n o.objects + count n o.closes + is_this n fd
unfolding reset_object
reset_object-total n i fd o h =
    let d = object_at o.objects i in
    omega (arith, reset-closes n d fd o.closes, owners-set n o.objects i (reset d fd o.closes).0 h)

release_object-total :
    (n i : ℕ) (o : Owners)
    → exists_at o i ≡ true
    → owners n (release_object i o).objects + is_this n (object_at o.objects i).fd
      ≡ owners n o.objects
unfolding release_object release
release_object-total n i o h = omega (arith, owners-set n o.objects i (new_descriptor no_fd) h)

exists-release :
    (o : Owners) (i j : ℕ) → exists_at o i ≡ true → exists_at (release_object j o) i ≡ true
unfolding release_object
exists-release o i j h = rw (length-set o.objects j (release (object_at o.objects j)).1) h

-- The notes are not touched by either.
reset_object-notes :
    (i : ℕ) (fd : ℤ) (o : Owners)
    → ((reset_object i fd o).released ≡ o.released) × ((reset_object i fd o).adopted ≡ o.adopted)
unfolding reset_object
reset_object-notes i fd o = (refl, refl)

release_object-notes :
    (i : ℕ) (o : Owners)
    → ((release_object i o).released ≡ o.released)
      × ((release_object i o).adopted ≡ o.adopted)
      × ((release_object i o).closes ≡ o.closes)
unfolding release_object
release_object-notes i o = (refl, refl, refl)

reset-Balanced :
    (n i : ℕ) (fd : ℤ) (o : Owners)
    → exists_at o i ≡ true
    → Balanced n o
    → Balanced n (record (reset_object i fd o) { adopted = o.adopted ++ fd ∷ [] })
reset-Balanced n i fd o h b =
    let (r, _) = reset_object-notes i fd o in
    record {
      balance = rw r (
          omega
            (arith, b.balance, reset_object-total n i fd o h, count-append n o.adopted (fd ∷ [])));
    }

release-Balanced :
    (n i : ℕ) (o : Owners)
    → exists_at o i ≡ true
    → Balanced n o
    → Balanced n
        (record (release_object i o) { released = o.released ++ (object_at o.objects i).fd ∷ [] })
release-Balanced n i o h b =
    let (_, a, c) = release_object-notes i o in
    let fd = (object_at o.objects i).fd in
    record {
      balance =
          rw (a, c)
            (omega (
              arith,
              b.balance,
              release_object-total n i o h,
              count-append n o.released (fd ∷ []),
            ));
    }

assign-Balanced :
    (n i j : ℕ) (o : Owners)
    → exists_at o i ≡ true
    → exists_at o j ≡ true
    → Balanced n o
    → Balanced n (reset_object i (object_at o.objects j).fd (release_object j o))
assign-Balanced n i j o hi hj b =
    let fd = (object_at o.objects j).fd in
    let (r, a, c) = release_object-notes j o in
    let (r', a') = reset_object-notes i fd (release_object j o) in
    let total = reset_object-total n i fd (release_object j o) (exists-release o i j hi) in
    record {
      balance = omega (
        arith,
        b.balance,
        total,
        release_object-total n j o hj,
        ap (count n) r,
        ap (count n) a,
        ap (count n) c,
        ap (count n) r',
        ap (count n) a',
      );
    }

move-Balanced :
    (n j : ℕ) (o : Owners)
    → exists_at o j ≡ true
    → Balanced n o
    → Balanced n (record (release_object j o) {
      objects = (release_object j o).objects ++ new_descriptor (object_at o.objects j).fd ∷ [];
    })
move-Balanced n j o h b =
    let (r, a, c) = release_object-notes j o in
    record {
      balance =
          rw (r, a, c)
            (omega (
              arith,
              b.balance,
              release_object-total n j o h,
              owners-append n (release_object j o).objects
                  (new_descriptor (object_at o.objects j).fd ∷ []),
            ));
    }

act-Balanced : (n : ℕ) (o : Owners) (a : Action) → Balanced n o → Balanced n (act o a)
unfolding act
act-Balanced n o (construct fd) b = record {
  balance = omega (
    arith,
    b.balance,
    owners-append n o.objects (new_descriptor fd ∷ []),
    count-append n o.adopted (fd ∷ []),
  );
}
act-Balanced n o (move_construct j) b =
    either_case (Balanced n) (exists_at o j) _ _ (λ h. move-Balanced n j o h b) (λ _. b)
act-Balanced n o (move_assign i j) b =
    either_case (Balanced n) (exists_at o i && exists_at o j && not (i == j)) _ _
      (λ h. assign-Balanced n i j o (ground arith) (ground arith) b) (λ _. b)
act-Balanced n o (release_at i) b =
    either_case (Balanced n) (exists_at o i) _ _ (λ h. release-Balanced n i o h b) (λ _. b)
act-Balanced n o (reset_at i fd) b =
    either_case (Balanced n) (exists_at o i) _ _ (λ h. reset-Balanced n i fd o h b) (λ _. b)

act_all-Balanced :
    (n : ℕ) (o : Owners) (actions : List Action) → Balanced n o → Balanced n (act_all o actions)
unfolding act_all
act_all-Balanced n o [] b = b
act_all-Balanced n o (a ∷ actions) b = act_all-Balanced n (act o a) actions (act-Balanced n o a b)

destroy_all-count :
    (n : ℕ) (ds : List FileDescriptor) (closes : List ℤ)
    → count n (destroy_all ds closes) ≡ owners n ds + count n closes
unfolding destroy_all destroy
destroy_all-count n [] closes = omega arith
destroy_all-count n (d ∷ ds) closes =
    omega (arith, destroy_all-count n ds (reset d no_fd closes).1, reset-closes n d no_fd closes)

-- Whatever a program does with its owners, when they are all destroyed each descriptor was closed as
-- often as it was handed to an owner, less the times that it was released.
pub destroy_all-closes :
    (n : ℕ) (actions : List Action)
    → count n (destroy_all (act_all no_owners actions).objects (act_all no_owners actions).closes)
        + count n (act_all no_owners actions).released
      ≡ count n (act_all no_owners actions).adopted
destroy_all-closes n actions =
    let o = act_all no_owners actions in
    let b = act_all-Balanced n no_owners actions (record { balance = omega arith }) in
    omega (arith, b.balance, destroy_all-count n o.objects o.closes)
