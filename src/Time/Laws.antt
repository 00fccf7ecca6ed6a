-- ===== src/Time/Laws.antt =====
-- `timespec_sum` and `timespec_diff` keep the nanoseconds in range, and are inverse to each other.
use easyipc.Base.{◌+◌, ◌≡◌, ◌<◌, ◌≤◌, arith, Bool-cases, inl, inr, true, false}
use easyipc.Base.Int.{ℤ, pos, pos_part, neg_part, ◌+ℤ◌, ◌-ℤ◌, ◌≤ℤ◌, ltb_ℤ, int_laws}
use easyipc.Time.{Timespec, second, diff, sum}

-- `0 <= tv_nsec < 10^9`
pub record IsNormal (t : Timespec) : Type 0 where
  pub low : pos 0 ≤ℤ t.tv_nsec
  pub high : ltb_ℤ t.tv_nsec (pos second) ≡ true

Timespec-eq : (s t : Timespec) → s.tv_sec ≡ t.tv_sec → s.tv_nsec ≡ t.tv_nsec → s ≡ t
Timespec-eq s t p q = λ i. record { tv_sec = p i; tv_nsec = q i }

lt_of_ltb : (a b : ℤ) → ltb_ℤ a b ≡ true → pos_part a + neg_part b < pos_part b + neg_part a
lt_of_ltb a b h = ground arith

le_of_ltb : (a b : ℤ) → ltb_ℤ a b ≡ false → pos_part b + neg_part a ≤ pos_part a + neg_part b
le_of_ltb a b h = ground arith

ltb_of_lt : (a b : ℤ) → pos_part a + neg_part b < pos_part b + neg_part a → ltb_ℤ a b ≡ true
ltb_of_lt a b h = ground arith

ltb_of_le : (a b : ℤ) → pos_part b + neg_part a ≤ pos_part a + neg_part b → ltb_ℤ a b ≡ false
ltb_of_le a b h = ground arith

-- The sum of two times with nanoseconds from 0 to below 10^9 has its nanoseconds in that range.
pub sum-IsNormal : (s t : Timespec) → IsNormal s → IsNormal t → IsNormal (sum s t)
unfolding sum
sum-IsNormal s t hs ht =
    let n = s.tv_nsec +ℤ t.tv_nsec in
    let hi = lt_of_ltb s.tv_nsec (pos second) hs.high in
    let hj = lt_of_ltb t.tv_nsec (pos second) ht.high in
    elim (Bool-cases (ltb_ℤ n (pos second))) [
      | inl e ↦ rw e (record { low = omega int_laws; high = e })
      | inr e ↦
          let over = le_of_ltb n (pos second) e in
          rw e (record {
            low = omega int_laws;
            high = ltb_of_lt (n -ℤ pos second) (pos second) (omega int_laws);
          })
    ]

-- The difference of two times with nanoseconds from 0 to below 10^9 has its nanoseconds in that
-- range.
pub diff-IsNormal : (s t : Timespec) → IsNormal s → IsNormal t → IsNormal (diff s t)
unfolding diff
diff-IsNormal s t hs ht =
    let n = t.tv_nsec -ℤ s.tv_nsec in
    let hi = lt_of_ltb s.tv_nsec (pos second) hs.high in
    let hj = lt_of_ltb t.tv_nsec (pos second) ht.high in
    elim (Bool-cases (ltb_ℤ n (pos 0))) [
      | inl e ↦
          let under = lt_of_ltb n (pos 0) e in
          rw e (record {
            low = omega int_laws;
            high = ltb_of_lt (pos second +ℤ t.tv_nsec -ℤ s.tv_nsec) (pos second) (omega int_laws);
          })
      | inr e ↦
          let over = le_of_ltb n (pos 0) e in
          rw e (record { low = omega int_laws; high = ltb_of_lt n (pos second) (omega int_laws) })
    ]

-- For two times with nanoseconds from 0 to below 10^9, adding the difference of the two to the
-- first gives the second.
pub sum-diff : (s t : Timespec) → IsNormal s → IsNormal t → sum s (diff s t) ≡ t
unfolding sum diff
sum-diff s t hs ht =
    let n = t.tv_nsec -ℤ s.tv_nsec in
    let hi = lt_of_ltb s.tv_nsec (pos second) hs.high in
    let hj = lt_of_ltb t.tv_nsec (pos second) ht.high in
    elim (Bool-cases (ltb_ℤ n (pos 0))) [
      | inl e ↦
          let under = lt_of_ltb n (pos 0) e in
          let carry : ltb_ℤ (s.tv_nsec +ℤ (pos second +ℤ t.tv_nsec -ℤ s.tv_nsec)) (pos second)
              ≡ false =
            ltb_of_le (s.tv_nsec +ℤ (pos second +ℤ t.tv_nsec -ℤ s.tv_nsec)) (pos second)
              (omega int_laws) in
          rw (e, carry) (Timespec-eq _ t (omega int_laws) (omega int_laws))
      | inr e ↦
          let over = le_of_ltb n (pos 0) e in
          let carry : ltb_ℤ (s.tv_nsec +ℤ n) (pos second) ≡ true =
            ltb_of_lt (s.tv_nsec +ℤ n) (pos second) (omega int_laws) in
          rw (e, carry) (Timespec-eq _ t (omega int_laws) (omega int_laws))
    ]
