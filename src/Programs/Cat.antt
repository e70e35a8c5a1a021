-- ===== src/Programs/Cat.antt =====
-- What `cat` prints.
pub mod OfKernel
use mathlib.Core.List.{append_assoc, append-nil}
use os.Common.{
  ℕ, zero, suc, ◌+◌, ◌-◌, ◌^◌, ◌<◌, ◌≡◌, refl, sym, ap, ◌∙◌, ◌≢◌, ◌⊎◌, inl, inr, true, false, some,
  List, [], ◌∷◌, ◌++◌, arith, ℕ_discrete, ◌==◌, if◌then◌else◌, minus_one, Bytes, length, get_or,
}
use os.Terminal.Output.{printed}
use os.Programs.{Calls, cat_loop, cat}

abbrev pub drop : ℕ → List ℕ → List ℕ
drop zero l = l
drop (suc n) [] = []
drop (suc n) (c ∷ l) = drop n l

-- the bytes that a terminal shows: those that are not NUL
abbrev pub visible : List ℕ → List ℕ
visible [] = []
visible (c ∷ l) = if c == 0 then visible l else c ∷ visible l

-- What `cat` relies on, in the states in which its file and the screen are open: a read of `fd` gives the next bytes of the file, with NULs behind its last
-- byte, and the count that was asked for, or 0 at the end; a write to descriptor 1 shows the bytes
-- that are not NUL. `unread` is the rest of the file, and `shown` all that the screen was sent.
pub record Serves {S : Type 0} (calls : Calls S) (fd : ℕ) (IsOpen : S → Type 0)
    (unread shown : S → List ℕ) : Type 0 where
  pub at_end :
      (buf : Bytes) (st : S)
      → IsOpen st
      → unread st ≡ []
      → let r = calls.sys_read fd buf 1024 st in (r.0 ≡ 0) × (shown r.2 ≡ shown st)
  pub more :
      (buf : Bytes) (st : S)
      → IsOpen st
      → unread st ≢ []
      → let r = calls.sys_read fd buf 1024 st in
        (r.0 ≡ 1024)
        × ((i : ℕ) → i < 1024 → r.1 i ≡ get_or (unread st) i 0)
        × (unread r.2 ≡ drop 1024 (unread st))
        × (shown r.2 ≡ shown st)
        × IsOpen r.2
  pub prints :
      (buf : Bytes) (n : ℕ) (st : S)
      → IsOpen st
      → n < 2 ^ 31
      → let r = calls.sys_write 1 buf n st in
        (r.0 ≢ minus_one)
        × (shown r.1 ≡ shown st ++ printed n 0 buf)
        × (unread r.1 ≡ unread st)
        × IsOpen r.1

drop-nil : (n : ℕ) → drop n [] ≡ []
drop-nil zero = refl
drop-nil (suc n) = refl

List-cases : (l : List ℕ) → (l ≡ []) ⊎ ((l ≢ []) × (0 < length l))
List-cases [] = inl refl
List-cases (c ∷ l) = inr ((λ e. ground (arith, e)), omega arith)

length-drop : (n : ℕ) (l : List ℕ) → length (drop n l) ≡ length l - n
length-drop zero l = omega arith
length-drop (suc n) [] = omega arith
length-drop (suc n) (c ∷ l) = omega (arith, length-drop n l)

-- Behind the last byte of the file the buffer holds NULs.
printed-visible :
    (n i : ℕ) (buf : Bytes) (l : List ℕ)
    → ((j : ℕ) → j < n → buf (i + j) ≡ get_or l j 0)
    → printed n i buf ++ visible (drop n l) ≡ visible l
unfolding printed
printed-visible zero i buf l h = refl
printed-visible (suc n) i buf [] h =
    let first : buf i ≡ 0 = ap buf (omega arith) ∙ h 0 (omega arith) in
    let rest =
      printed-visible n (i + 1) buf [] (λ j b. ap buf (omega arith) ∙ h (suc j) (omega arith)) in
    rw first (ap (λ d. printed n (i + 1) buf ++ visible d) (sym (drop-nil n)) ∙ rest)
printed-visible (suc n) i buf (c ∷ l) h =
    let first : buf i ≡ c = ap buf (omega arith) ∙ h 0 (omega arith) in
    let rest =
      printed-visible n (i + 1) buf l (λ j b. ap buf (omega arith) ∙ h (suc j) (omega arith)) in
    elim (ℕ_discrete c 0) [
      | yes e ↦ let t : (c == 0) ≡ true = ground arith in rw (first, t) rest
      | no e ↦ let t : (c == 0) ≡ false = ground arith in rw (first, t) (ap (λ v. c ∷ v) rest)
    ]

module _ {S : Type 0} (calls : Calls S) (fd : ℕ) (IsOpen : S → Type 0) (unread shown : S → List ℕ)
    (serves : Serves calls fd IsOpen unread shown) where
  cat_loop_lem :
      (fuel : ℕ) (buf : Bytes) (st : S)
      → IsOpen st
      → length (unread st) < fuel
      → (end : S) × (cat_loop calls fuel fd buf st ≡ some (0, end))
        × (shown end ≡ shown st ++ visible (unread st))
  unfolding cat_loop
  cat_loop_lem zero buf st is_open h = absurd (omega arith)
  cat_loop_lem (suc fuel) buf st is_open h =
      let r = calls.sys_read fd buf 1024 st in
      elim (List-cases (unread st)) [
        | inl empty ↦
            let (count, same) = serves.at_end buf st is_open empty in
            let t : (r.0 == 0) ≡ true = ground arith in
            let all = ap visible empty in
            rw (cat_loop, t)
              (r.2, refl, same ∙ sym (append-nil (shown st)) ∙ ap (λ l. shown st ++ l) (sym all))
        | inr (filled, some_left) ↦
            let (count, bytes, next, same, still) = serves.more buf st is_open filled in
            let small : r.0 < 2 ^ 31 = omega arith in
            let (written, now, kept, open') = serves.prints r.1 r.0 r.2 still small in
            let w = calls.sys_write 1 r.1 r.0 r.2 in
            let t0 : (r.0 == 0) ≡ false = ground arith in
            let t1 : (r.0 == minus_one) ≡ false = ground arith in
            let t2 : (w.0 == minus_one) ≡ false = ground arith in
            let left_over : unread w.1 ≡ drop 1024 (unread st) = kept ∙ next in
            let shorter : length (unread w.1) < fuel =
              rw left_over (omega (arith, length-drop 1024 (unread st))) in
            let (end, runs, finally) = cat_loop_lem fuel r.1 w.1 open' shorter in
            let block =
              printed-visible 1024 0 r.1 (unread st) (λ j b. ap r.1 (omega arith) ∙ bytes j b) in
            let tail = visible (unread w.1) in
            let whole : printed r.0 0 r.1 ++ tail ≡ visible (unread st) =
              ap (λ n. printed n 0 r.1 ++ tail) count
              ∙ ap (λ u. printed 1024 0 r.1 ++ visible u) left_over
              ∙ block in
            let sent : shown w.1 ≡ shown st ++ printed r.0 0 r.1 =
              now ∙ ap (λ a. a ++ printed r.0 0 r.1) same in
            rw (cat_loop, t0, t1, t2)
              (
                end,
                runs,
                finally
                    ∙ ap (λ a. a ++ tail) sent
                    ∙ append_assoc (shown st) (printed r.0 0 r.1) tail
                    ∙ ap (λ a. shown st ++ a) whole,
              )
      ]

  -- what `cat` gets from `open` for its argument
  abbrev pub opening : Bytes → S → ℕ × S
  opening garbage st =
      let asked = calls.sys_getargs garbage 1024 st in calls.sys_open_file asked.1 asked.2

  -- Where `getargs` gives the name of a file that opens as `fd`, and the calls behave as `Serves`
  -- says, `cat` ends with status 0, and the screen has been sent the bytes of the file that are not
  -- NUL, in their order, and no more. One round of the loop more than there are bytes is enough.
  pub cat_lem :
      (fuel : ℕ) (garbage : Bytes) (st : S)
      → (calls.sys_getargs garbage 1024 st).0 ≡ 0
      → (opening garbage st).0 ≡ fd
      → fd ≢ minus_one
      → IsOpen (opening garbage st).1
      → length (unread (opening garbage st).1) < fuel
      → (end : S) × (cat calls fuel garbage st ≡ some (0, end))
        × (shown end ≡ shown (opening garbage st).1 ++ visible (unread (opening garbage st).1))
  unfolding cat
  cat_lem fuel garbage st fine found real is_open enough =
      let asked = calls.sys_getargs garbage 1024 st in
      let opened = opening garbage st in
      let t0 : (asked.0 == 0) ≡ true = ground arith in
      let t1 : (opened.0 == minus_one) ≡ false = ground arith in
      let run = cat_loop_lem fuel asked.1 opened.1 is_open enough in rw (cat, t0, t1, found) run
