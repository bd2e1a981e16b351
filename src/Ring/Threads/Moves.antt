-- ===== src/Ring/Threads/Moves.antt =====
-- One goroutine moves on a ring of internal/queue/ring.go, and what holds goes on holding.
use hyper_l.Base.{
  ℕ, ◌+◌, ◌%◌, ◌^◌, ◌<◌, ◌≡◌, ◌≢◌, sym, if◌then◌else◌, ltb, some, List, [], ◌∷◌, ◌++◌, All,
  All-append, get_elem?, get_elem?-append_some, length, set, subst,
}
use hyper_l.Ring.{Ring, Pc, idle}
use hyper_l.Ring.Alone.{HasShape}
use hyper_l.Ring.Threads.{System, pc_of, claims, reads}
use hyper_l.Ring.Threads.View.{View, IsSound, Knows}
use hyper_l.Ring.Threads.Knowledge.{IsKept, HeldKept, Knows-keep}
use hyper_l.Ring.Threads.Invariant.{
  tally, tally_split, tally-append, adding, removing, unread, is_for, view, Holds, Knows-set,
}

All-pushed :
    {A : Type 0} (xs ys : List A) (es : List (ℕ × A))
    → All (λ e. get_elem? xs e.0 ≡ some e.1) es
    → All (λ e. get_elem? (xs ++ ys) e.0 ≡ some e.1) es
All-pushed xs ys [] h = tt
All-pushed xs ys (e ∷ es) h = (get_elem?-append_some xs ys e.0 e.1 h.0, All-pushed xs ys es h.1)

module _ {A : Type 0} (zero_value : A) (k : ℕ) where
  -- Goroutine `j` goes from where it stands to `next`, and the ring becomes `q`.
  abbrev pub moved : System A → ℕ → Ring A → Pc A → System A
  moved s j q next = record {
    ring = q;
    pcs = set s.pcs j next;
    pushed = s.pushed ++ claims next;
    delivered = s.delivered ++ reads next;
  }

  -- A move, by what it makes of the view and of the counts.
  pub record IsMove (s : System A) (pc : Pc A) (q : Ring A) (next : Pc A) (y : View A)
      : Type 0 where
    pub shape : HasShape zero_value k q
    pub sound : IsSound (2 ^ k) y
    pub kept : IsKept (view zero_value s) y
    pub knows : Knows y next
    pub count_bound : q.count < 2 ^ 64
    pub counted :
        (a r : ℕ)
        → (s.ring.count + s.ring.dequeue_pos + (a + adding pc)) % 2 ^ 64
          ≡ (s.ring.enqueue_pos + (r + removing pc)) % 2 ^ 64
        → (q.count + q.dequeue_pos + (a + adding next)) % 2 ^ 64
          ≡ (q.enqueue_pos + (r + removing next)) % 2 ^ 64
    pub right : All (λ e. get_elem? (s.pushed ++ claims next) e.0 ≡ some e.1) (reads next)
    pub once :
        (t o n : ℕ)
        → o + (n + unread t pc) ≡ (if ltb t s.ring.dequeue_pos then 1 else 0)
        → (o + tally (is_for t) (reads next)) + (n + unread t next)
          ≡ (if ltb t q.dequeue_pos then 1 else 0)

  pub Holds-moved :
      (s : System A) (j : ℕ) (q : Ring A) (next : Pc A) (y : View A)
      → j < length s.pcs
      → Holds zero_value k s
      → IsMove s (pc_of s j) q next y
      → view zero_value (moved s j q next) ≡ y
      → ((i : ℕ) → i ≢ j → HeldKept (view zero_value s) y (pc_of s i))
      → Holds zero_value k (moved s j q next)
  Holds-moved s j q next y l h m e held = record {
    shape = m.shape;
    sound = subst (IsSound (2 ^ k)) (sym e) m.sound;
    knows =
        Knows-set zero_value (view zero_value (moved s j q next)) s.pcs j next l
          (subst (λ x. Knows x next) (sym e) m.knows)
          (λ i n.
            subst (λ x. Knows x (pc_of s i)) (sym e)
              (Knows-keep (view zero_value s) y (pc_of s i) m.kept (held i n) (h.knows i)));
    counted =
        let (a, e₁, g₁) = tally_split adding s.pcs j idle l in
        let (r, e₂, g₂) = tally_split removing s.pcs j idle l in
        rw (g₁ next, g₂ next) (m.counted a r (rw (← e₁, ← e₂) h.counted));
    count_bound = m.count_bound;
    right =
        All-append (λ e. get_elem? (s.pushed ++ claims next) e.0 ≡ some e.1) s.delivered
          (reads next) (All-pushed s.pushed (claims next) s.delivered h.right) m.right;
    once = λ t.
        let (n, e₁, g₁) = tally_split (unread t) s.pcs j idle l in
        rw (g₁ next, tally-append (is_for t) s.delivered (reads next))
          (m.once t (tally (is_for t) s.delivered) n (rw (← e₁) (h.once t)));
  }
