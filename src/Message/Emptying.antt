-- ===== src/Message/Emptying.antt =====
-- FREE_Q_MESSAGES leaves an empty queue and no live entry of it.
use muxer.Base.{
  ℕ, zero, suc, ◌≡◌, ◌≢◌, ◌<◌, refl, ap, ◌∙◌, sym, subst, arith, true, false, not, not_or, ◌&&◌,
  List, [], ◌∷◌, length, has, ◌==◌, ok, ◌>>=◌, Returns, >>=-Returns, Returns-imp,
}
use muxer.Queue.{Heap, Queue, null, update, q_get, q_free}
use muxer.Queue.Linked.{first, IsQueue, contents, test_ne}
use muxer.Queue.Put.{q_get-head}
use muxer.Queue.Unlink.{without, without_absent}
use muxer.Queue.Free.{q_free-without}
use muxer.Message.Stored.{free_entry, free_loop, free_queued_messages}

record Emptied (h : Heap) (xs : List ℕ) (r : Queue × Heap × List ℕ) : Type 0 where
  pub queue : r.0 ≡ record { head = null; tail = null }
  pub refs : contents r.1 ≡ contents h
  pub freed : r.2 ≡ contents h xs
  pub live : (a : ℕ) → r.1.live a ≡ (not (has a xs) && h.live a)

Emptied-head :
    (h h' : Heap) (x : ℕ) (xs : List ℕ) (r : Queue × Heap × List ℕ)
    → contents h' ≡ contents h
    → h'.live ≡ update h.live x false
    → Emptied h' xs r
    → Emptied h (x ∷ xs) (r.0, r.1, h.ref x ∷ r.2)
Emptied-head h h' x xs r same alive u = record {
  queue = u.queue;
  refs = u.refs ∙ same;
  freed = ap (λ (l : List ℕ). h.ref x ∷ l) (u.freed ∙ ap (λ g. g xs) same);
  live = λ a. u.live a ∙ rw alive (not_or (a == x) (has a xs) (h.live a));
}

-- What `free_entry` does with the entry `x`, while the queue holds the others.
abbrev Frees : Heap → ℕ → List ℕ → ℕ × Queue × Heap → Type 0
Frees h x xs (tmp, q', h') =
    (tmp ≡ h.ref x)
    × IsQueue h' q' xs
    × (contents h' ≡ contents h)
    × (h'.live ≡ update h.live x false)

free_entry_lem :
    (room x : ℕ) (q : Queue) (h : Heap)
    → x ≢ null
    → h.live x ≡ true
    → h.ref x ≢ null
    → free_entry room x q h ≡ (q_free room q x h >>= λ (q', h'). ok (h.ref x, q', h'))
unfolding free_entry
free_entry_lem room x q h ne live ref =
    rw (free_entry, live, test_ne (h.ref x) null ref, test_ne x null ne) refl

free_entry-Frees :
    (room x : ℕ) (xs : List ℕ) (q : Queue) (h : Heap)
    → x ≢ null
    → h.live x ≡ true
    → h.ref x ≢ null
    → has x xs ≡ false
    → IsQueue h q xs
    → length xs < room
    → Returns (Frees h x xs) (free_entry room x q h)
free_entry-Frees room x xs q h ne live ref out is f = rw (free_entry_lem room x q h ne live ref) (
    >>=-Returns
      (λ (q', h').
        IsQueue h' q' (without x xs)
        × (contents h' ≡ contents h)
        × (h'.live ≡ update h.live x false))
      (Frees h x xs) (q_free room q x h) (λ (q', h'). ok (h.ref x, q', h'))
      (q_free-without room x xs q h is ne live f)
      (λ (q', h') (is', refs, alive). (refl, rw (without_absent x xs out) at is', refs, alive)))

-- The step of the loop on a queue that is not empty.
free_loop-step :
    (fuel room x : ℕ) (xs : List ℕ) (q : Queue) (h : Heap) (P : Queue × Heap × List ℕ → Type 0)
    → IsQueue h q (x ∷ xs)
    → h.ref x ≢ null
    → length xs < room
    → ((q' : Queue) (h' : Heap)
        → IsQueue h' q' xs
        → contents h' ≡ contents h
        → h'.live ≡ update h.live x false
        → Returns (λ r. P (r.0, r.1, h.ref x ∷ r.2)) (free_loop fuel room q' h'))
    → Returns P (free_loop (suc fuel) room q h)
unfolding free_loop
free_loop-step fuel room x xs q h P is ref f rest =
    let (ne, live, next, out, l) = is.linked in
    let some_head : (q.head == null) ≡ false = ap (λ z. z == null) is.head ∙ test_ne x null ne in
    rw (free_loop, some_head)
      (>>=-Returns (λ (qe, q1). (qe ≡ x) × IsQueue h q1 xs) P (q_get q h) _
        (q_get-head (x ∷ xs) q h is)
        (λ (qe, q1) (e, is1).
          rw (e, test_ne x null ne)
            (>>=-Returns (Frees h x xs) P (free_entry room qe q1 h) _
              (subst (λ z. Returns (Frees h x xs) (free_entry room z q1 h)) (sym e)
                (free_entry-Frees room x xs q1 h ne live ref out is1 f))
              (λ (tmp, q2, h2) (same, is2, refs, alive).
                >>=-Returns (λ r. P (r.0, r.1, h.ref x ∷ r.2)) P (free_loop fuel room q2 h2) _
                  (rest q2 h2 is2 refs alive) (λ r p. rw same p)))))

free_loop-Emptied :
    (fuel room : ℕ) (xs : List ℕ) (q : Queue) (h : Heap)
    → IsQueue h q xs
    → ((a : ℕ) → has a xs ≡ true → h.ref a ≢ null)
    → length xs < fuel
    → length xs < room
    → Returns (Emptied h xs) (free_loop fuel room q h)
unfolding free_loop
free_loop-Emptied zero room xs q h is refs f f' = absurd (omega arith)
free_loop-Emptied (suc fuel) room [] q h is refs f f' =
    rw (free_loop, ap (λ z. z == null) is.head)
      (record {
        queue = λ i. record { head = is.head i; tail = is.tail i };
        refs = refl;
        freed = refl;
        live = λ a. refl;
      })
free_loop-Emptied (suc fuel) room (x ∷ xs) q h is refs f f' =
    free_loop-step fuel room x xs q h (Emptied h (x ∷ xs)) is (refs x (ground arith)) (omega arith)
      (λ q' h' is' same alive.
        let refs' : (a : ℕ) → h'.ref a ≡ h.ref a = λ a. ap (λ g. first (g (a ∷ []))) same in
        Returns-imp (Emptied h' xs) (λ r. Emptied h (x ∷ xs) (r.0, r.1, h.ref x ∷ r.2))
          (free_loop fuel room q' h') (λ r u. Emptied-head h h' x xs r same alive u)
          (free_loop-Emptied fuel room xs q' h' is' (λ a i. rw (refs' a) (refs a (ground arith)))
            (omega arith) (omega arith)))

-- On a well-linked queue whose entries all refer to a message, with fuel beyond its length, the
-- emptying returns: the queue is empty, the messages of all entries were freed, in order and each
-- once, just these entries are no longer live, and what an entry refers to has not changed.
pub free_queued_messages-Emptied :
    (fuel : ℕ) (xs : List ℕ) (q : Queue) (h : Heap)
    → IsQueue h q xs
    → ((a : ℕ) → has a xs ≡ true → h.ref a ≢ null)
    → length xs < fuel
    → Returns
        (λ (q', h', freed).
          (q' ≡ record { head = null; tail = null })
          × (freed ≡ contents h xs)
          × ((a : ℕ) → h'.live a ≡ (not (has a xs) && h.live a))
          × (contents h' ≡ contents h))
        (free_queued_messages fuel q h)
unfolding free_queued_messages
free_queued_messages-Emptied fuel xs q h is refs f =
    Returns-imp (Emptied h xs) _ (free_loop fuel fuel q h)
      (λ r u. (u.queue, u.freed, u.live, u.refs)) (free_loop-Emptied fuel fuel xs q h is refs f f)
