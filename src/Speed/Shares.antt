-- ===== src/Speed/Shares.antt =====
-- What is given out in a round.
use d4x.Prelude.{
  suc, ◌+◌, ◌<◌, Bool, true, List, [], ◌∷◌, ltb, if_intro, length, All, ◌≡◌, refl, sym, ap, ◌∙◌,
  arith,
}
use d4x.Prelude.Int.{
  ℤ, pos, pos_part, neg_part, ◌+ℤ◌, ◌-ℤ◌, quot, times, times_add, add_times, quot_rest, int_laws,
}
use d4x.Speed.{
  Speed, waits, set, init, Pass, serve, put_off, first_pass, last_part, second_pass, share,
}

-- What the Speeds may read together.
unfoldable pub total : List Speed → ℤ
unfolding ◌+ℤ◌
total [] = pos 0
total (s ∷ speeds) = s.bytes +ℤ total speeds

-- What init gives and what it returns are the part together.
init_lem : (a : ℤ) (s : Speed) → (init a s).0.bytes +ℤ (init a s).1 ≡ a
unfolding init set
init_lem a s =
    if_intro (λ (r : Speed × ℤ). r.0.bytes +ℤ r.1 ≡ a) (waits s) (λ _. omega int_laws)
      (λ _. omega int_laws)

regroup : (b t g f : ℤ) → (b +ℤ t) +ℤ (g +ℤ f) ≡ (b +ℤ g) +ℤ (t +ℤ f)
regroup b t g f = omega int_laws

first_pass-total :
    (off : Speed → Bool) (mark : Speed → Speed) (part : ℤ) (speeds : List Speed)
    → total (first_pass off mark part speeds).lst +ℤ (first_pass off mark part speeds).full
      ≡ times (length (first_pass off mark part speeds).lst) part
unfolding first_pass serve put_off total times
first_pass-total off mark part [] = omega int_laws
first_pass-total off mark part (s ∷ speeds) =
    let p = first_pass off mark part speeds in
    let r = init part (mark s) in
    if_intro (λ (q : Pass). total q.lst +ℤ q.full ≡ times (length q.lst) part) (off (mark s))
      {x = put_off (mark s) p} {y = serve r p} (λ _. first_pass-total off mark part speeds)
      (λ _.
        regroup (r.0).bytes (total p.lst) r.1 p.full
        ∙ ap (λ x. x +ℤ (total p.lst +ℤ p.full)) (init_lem part (mark s))
        ∙ ap (λ x. part +ℤ x) (first_pass-total off mark part speeds))

-- All that are put off wait.
first_pass-waits :
    (off : Speed → Bool) (mark : Speed → Speed) (part : ℤ) (speeds : List Speed)
    → ((s : Speed) → off s ≡ true → waits s ≡ true)
    → All (λ s. waits s ≡ true) (first_pass off mark part speeds).skiplst
unfolding first_pass serve put_off
first_pass-waits off mark part [] h = tt
first_pass-waits off mark part (s ∷ speeds) h =
    let p = first_pass off mark part speeds in
    if_intro (λ (q : Pass). All (λ x. waits x ≡ true) q.skiplst) (off (mark s))
      {x = put_off (mark s) p} {y = serve (init part (mark s)) p}
      (λ e. (h (mark s) e, first_pass-waits off mark part speeds h))
      (λ _. first_pass-waits off mark part speeds h)

first_pass-length :
    (off : Speed → Bool) (mark : Speed → Speed) (part : ℤ) (speeds : List Speed)
    → length (first_pass off mark part speeds).lst
        + length (first_pass off mark part speeds).skiplst
      ≡ length speeds
unfolding first_pass serve put_off
first_pass-length off mark part [] = omega arith
first_pass-length off mark part (s ∷ speeds) =
    let p = first_pass off mark part speeds in
    if_intro (λ (q : Pass). length q.lst + length q.skiplst ≡ suc (length speeds)) (off (mark s))
      {x = put_off (mark s) p} {y = serve (init part (mark s)) p}
      (λ _. omega (arith, first_pass-length off mark part speeds))
      (λ _. omega (arith, first_pass-length off mark part speeds))

second_pass-total :
    (part : ℤ) (skiplst : List Speed)
    → All (λ s. waits s ≡ true) skiplst
    → total (second_pass part skiplst) ≡ times (length skiplst) part
unfolding second_pass total times init set
second_pass-total part [] h = refl
second_pass-total part (s ∷ skiplst) (h, hs) = rw (h, second_pass-total part skiplst hs) refl

balance : (t f m n : ℤ) → t +ℤ (m +ℤ n) ≡ ((t +ℤ f) +ℤ m) -ℤ (f -ℤ n)
balance t f m n = omega int_laws

-- If a round puts off at least one Speed, and puts off only such as wait, then what all Speeds may
-- read after it is the number of them times the part, but for a rest: what is left of the division by
-- the number of those that were put off, of what the others did not need. The rest, of either sign, is
-- less than that number.
pub share-total :
    (off : Speed → Bool) (mark : Speed → Speed) (part : ℤ) (speeds : List Speed)
    → ((s : Speed) → off s ≡ true → waits s ≡ true)
    → 0 < length (first_pass off mark part speeds).skiplst
    → (rest : ℤ) × (total (share off mark part speeds).0 +ℤ total (share off mark part speeds).1
        ≡ times (length speeds) part -ℤ rest)
      × (pos_part rest < length (first_pass off mark part speeds).skiplst)
      × (neg_part rest < length (first_pass off mark part speeds).skiplst)
unfolding share last_part
share-total off mark part speeds h l =
    let p = first_pass off mark part speeds in
    let k = length p.skiplst in
    let more = quot p.full k in
    let counted : times (length speeds) part ≡ times (length p.lst) part +ℤ times k part =
      ap (λ n. times n part) (sym (first_pass-length off mark part speeds))
      ∙ add_times (length p.lst) k part in
    let put_off_total : total (second_pass (part +ℤ more) p.skiplst)
        ≡ times k part +ℤ times k more =
      second_pass-total (part +ℤ more) p.skiplst (first_pass-waits off mark part speeds h)
      ∙ times_add k part more in
    let positive : ltb 0 k ≡ true = ground (arith, l) in
    (
      p.full -ℤ times k more,
      rw (positive, put_off_total, counted, sym (first_pass-total off mark part speeds))
          (balance (total p.lst) p.full (times k part) (times k more)),
      (quot_rest p.full k l).0,
      (quot_rest p.full k l).1,
    )
