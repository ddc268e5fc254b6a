-- ===== src/Mapping/Unlinking.antt =====
-- REMOVE_MAPPINGS on the linked queue does what it does on the list of the mappings.
use muxer.Base.{
  ℕ, zero, suc, ◌≡◌, ◌≢◌, ◌<◌, refl, ap, ◌∙◌, sym, subst, arith, Bool, true, false, not, not_or,
  ◌&&◌, List, [], ◌∷◌, ◌++◌, append_assoc, map, length, length-append, has, ◌==◌, ok, Returns,
  >>=-Returns, Returns-imp, Bool-cases, ◌>>=◌, inl, inr,
}
use muxer.State.{Mapping}
use muxer.Queue.{Heap, Queue, null, update, q_free}
use muxer.Queue.Linked.{first, IsQueue, contents, Linked-frame, update_ne, test_ne, ne_of_has}
use muxer.Queue.Unlink.{without}
use muxer.Queue.Free.{q_free-without}
use muxer.Mapping.{remove_mappings_for}
use muxer.Mapping.Stored.{remove_loop, remove_queued_mappings}
use muxer.Mapping.Filtered.{
  Linked-at, without-midst, kept, dropped, kept_same, dropped_same, has-dropped, map-kept,
}

module _ (mapping_at : ℕ → Mapping) (socket : ℕ) where
  abbrev hits : ℕ → Bool
  hits p = (mapping_at p).socket == socket

  -- What the loop comes to, with the entries `before` behind it and `todo` before it.
  record Removed (h : Heap) (before todo : List ℕ) (r : Queue × Heap × List ℕ) : Type 0 where
    pub queue : IsQueue r.1 r.0 (before ++ kept hits h.ref todo)
    pub refs : (a : ℕ) → has a (dropped hits h.ref todo) ≡ false → r.1.ref a ≡ h.ref a
    pub freed : r.2 ≡ map h.ref (dropped hits h.ref todo)
    pub live : (a : ℕ) → r.1.live a ≡ (not (has a (dropped hits h.ref todo)) && h.live a)

  Removed-miss :
      (h : Heap) (before : List ℕ) (x : ℕ) (todo : List ℕ) (r : Queue × Heap × List ℕ)
      → hits (h.ref x) ≡ false
      → Removed h (before ++ x ∷ []) todo r
      → Removed h before (x ∷ todo) r
  Removed-miss h before x todo r miss u = record {
    queue = rw miss (rw (← append_assoc before (x ∷ []) (kept hits h.ref todo)) u.queue);
    refs = λ a out. u.refs a (rw miss at out);
    freed = rw miss u.freed;
    live = λ a. rw miss (u.live a);
  }

  ref_elsewhere :
      (h h' : Heap) (x : ℕ) (todo : List ℕ)
      → has x todo ≡ false
      → ((a : ℕ) → h'.ref a ≡ update h.ref x null a)
      → (a : ℕ) → has a todo ≡ true
      → h'.ref a ≡ h.ref a
  ref_elsewhere h h' x todo out refs a i =
      refs a ∙ update_ne h.ref x a null (λ e. ne_of_has x a todo out i (sym e))

  Removed-hit :
      (h h' : Heap) (before : List ℕ) (x : ℕ) (todo : List ℕ) (r : Queue × Heap × List ℕ)
      → hits (h.ref x) ≡ true
      → has x todo ≡ false
      → ((a : ℕ) → h'.ref a ≡ update h.ref x null a)
      → h'.live ≡ update h.live x false
      → Removed h' before todo r
      → Removed h before (x ∷ todo) (r.0, r.1, h.ref x ∷ r.2)
  Removed-hit h h' before x todo r hit out refs alive u =
      let same = ref_elsewhere h h' x todo out refs in
      let queue = u.queue in
      let (drop, refs_of) = dropped_same hits h'.ref h.ref todo same in
      record {
        queue = rw hit (rw (kept_same hits h'.ref h.ref todo same) at queue);
        refs = λ a absent.
            let apart : has a (x ∷ dropped hits h.ref todo) ≡ false = rw hit at absent in
            let ne : a ≢ x = ground (arith, apart) in
            let later : has a (dropped hits h.ref todo) ≡ false = ground (arith, apart) in
            u.refs a (ap (has a) drop ∙ later) ∙ refs a ∙ update_ne h.ref x a null ne;
        freed = rw hit (λ i. h.ref x ∷ (u.freed ∙ refs_of) i);
        live = λ a. rw hit (
            u.live a
            ∙ rw (drop, alive) (not_or (a == x) (has a (dropped hits h.ref todo)) (h.live a)));
      }

  -- What the loop does at a live entry that refers to a mapping.
  module _ (fuel room x : ℕ) (q : Queue) (h : Heap) (ne : x ≢ null) (live : h.live x ≡ true)
      (ref : h.ref x ≢ null) where
    remove_loop-hit :
        hits (h.ref x) ≡ true
        → remove_loop mapping_at (suc fuel) room socket x q h ≡ (
            q_free room q x (record h { ref = update h.ref x null }) >>= λ (q', h').
            remove_loop mapping_at fuel room socket (h.next x) q' h' >>= λ r.
            ok (r.0, r.1, h.ref x ∷ r.2))
    unfolding remove_loop
    remove_loop-hit hit =
        rw
          (remove_loop, test_ne x null ne, live, test_ne (h.ref x) null ref, hit, test_ne x null ne)
          refl

    remove_loop-miss :
        hits (h.ref x) ≡ false
        → remove_loop mapping_at (suc fuel) room socket x q h
          ≡ remove_loop mapping_at fuel room socket (h.next x) q h
    unfolding remove_loop
    remove_loop-miss miss =
        rw
          (
            remove_loop,
            test_ne x null ne,
            live,
            test_ne (h.ref x) null ref,
            miss,
            test_ne x null ne,
          )
          refl

  -- The state that `q_free` is called in.
  IsQueue-unreferenced :
      (h : Heap) (q : Queue) (xs : List ℕ) (x : ℕ)
      → IsQueue h q xs
      → IsQueue (record h { ref = update h.ref x null }) q xs
  IsQueue-unreferenced h q xs x is = record {
    linked =
        Linked-frame h (record h { ref = update h.ref x null }) xs (λ a i. (refl, refl)) is.linked;
    head = is.head;
    tail = is.tail;
  }

  -- With fuel beyond the entries the loop returns.
  remove_loop-Removed :
      (fuel room : ℕ) (before todo : List ℕ) (q : Queue) (h : Heap)
      → IsQueue h q (before ++ todo)
      → ((a : ℕ) → has a todo ≡ true → h.ref a ≢ null)
      → length todo < fuel
      → length (before ++ todo) < room
      → Returns (Removed h before todo) (remove_loop mapping_at fuel room socket (first todo) q h)
  unfolding remove_loop
  remove_loop-Removed zero room before todo q h is refs f f' = absurd (omega arith)
  remove_loop-Removed (suc fuel) room before [] q h is refs f f' = record {
    queue = is;
    refs = λ a out. refl;
    freed = refl;
    live = λ a. refl;
  }
  remove_loop-Removed (suc fuel) room before (x ∷ todo) q h is refs f f' =
      let (ne, live, next, out, out') = Linked-at h before x todo is.linked in
      let ref = refs x (ground arith) in
      elim (Bool-cases (hits (h.ref x))) [
        | inl hit ↦
            let h1 : Heap = record h { ref = update h.ref x null } in
            rw (remove_loop-hit fuel room x q h ne live ref hit, next)
              (>>=-Returns
                (λ (q', h').
                  IsQueue h' q' (without x (before ++ x ∷ todo))
                  × (contents h' ≡ contents h1)
                  × (h'.live ≡ update h1.live x false))
                (Removed h before (x ∷ todo)) (q_free room q x h1)
                (λ (q', h'). remove_loop mapping_at fuel room socket (first todo) q' h' >>= λ r.
                  ok (r.0, r.1, h.ref x ∷ r.2))
                (q_free-without room x (before ++ x ∷ todo) q h1
                  (IsQueue-unreferenced h q (before ++ x ∷ todo) x is) ne live f')
                (λ (q', h') (is', same, alive).
                  let refs' : (a : ℕ) → h'.ref a ≡ update h.ref x null a =
                    λ a. ap (λ g. first (g (a ∷ []))) same in
                  >>=-Returns (Removed h' before todo) (Removed h before (x ∷ todo))
                    (remove_loop mapping_at fuel room socket (first todo) q' h')
                    (λ r. ok (r.0, r.1, h.ref x ∷ r.2))
                    (remove_loop-Removed fuel room before todo q' h'
                      (rw (without-midst x before todo out' out) at is')
                      (λ a i. rw (ref_elsewhere h h' x todo out refs' a i) (refs a (ground arith)))
                      (omega arith)
                      (omega
                        (arith, f', length-append before todo, length-append before (x ∷ todo))))
                    (λ r u. Removed-hit h h' before x todo r hit out refs' alive u)))
        | inr miss ↦
            rw (remove_loop-miss fuel room x q h ne live ref miss, next)
              (Returns-imp (Removed h (before ++ x ∷ []) todo) (Removed h before (x ∷ todo))
                (remove_loop mapping_at fuel room socket (first todo) q h)
                (λ r. Removed-miss h before x todo r miss)
                (remove_loop-Removed fuel room (before ++ x ∷ []) todo q h
                  (rw (append_assoc before (x ∷ []) todo) is) (λ a i. refs a (ground arith))
                  (omega arith) (rw (append_assoc before (x ∷ []) todo) f')))
      ]

  -- On a well-linked queue whose entries all refer to a mapping, with fuel beyond its length, the
  -- removal returns: the queue holds the entries whose mapping is for another socket, in their
  -- order, and read as mappings they are what the removal from the list leaves; the mappings that
  -- were freed are those of the other entries, in order, and just these entries are no longer live.
  pub remove_queued_mappings-remove_mappings_for :
      (fuel : ℕ) (xs : List ℕ) (q : Queue) (h : Heap)
      → IsQueue h q xs
      → ((a : ℕ) → has a xs ≡ true → h.ref a ≢ null)
      → length xs < fuel
      → Returns
          (λ (q', h', freed).
            IsQueue h' q' (kept hits h.ref xs)
            × (map (λ a. mapping_at (h'.ref a)) (kept hits h.ref xs)
                ≡ remove_mappings_for socket (map (λ a. mapping_at (h.ref a)) xs))
            × (freed ≡ map h.ref (dropped hits h.ref xs))
            × ((a : ℕ) → h'.live a ≡ (not (has a (dropped hits h.ref xs)) && h.live a)))
          (remove_queued_mappings mapping_at fuel socket q h)
  unfolding remove_queued_mappings
  remove_queued_mappings-remove_mappings_for fuel xs q h is refs f =
      Returns-imp (Removed h [] xs) _ (remove_loop mapping_at fuel fuel socket q.head q h)
        (λ r u.
          let same =
            map-kept mapping_at socket r.1.ref h.ref xs
              (λ a miss. u.refs a (has-dropped hits h.ref a xs miss)) in
          (u.queue, same, u.freed, u.live))
        (subst (λ qe. Returns (Removed h [] xs) (remove_loop mapping_at fuel fuel socket qe q h))
          (sym is.head) (remove_loop-Removed fuel fuel [] xs q h is refs f f))
