-- ===== src/Terminal/Switch.antt =====
-- Switching between terminals: the screen and the cursor of each are kept.
use os.Common.{
  ℕ, ◌+◌, ◌-◌, ◌*◌, ◌<◌, ◌≡◌, refl, sym, ◌∙◌, ◌≢◌, ◌&&◌, arith, ℕ_discrete, ltb, leb, if◌then◌else◌,
  Bytes, copy_lem,
}
use os.Machine.{Kernel}
use os.Console.{update_cursor}
use os.Terminal.{switch_video_mem, copy_page, switch_terminals}

-- byte `j` of the page of terminal `t`
abbrev pub page : Kernel → ℕ → ℕ → ℕ
page k t j = k.console.video ((t + 1) * 4096 + j)

copy_page_lem :
    (dest src : ℕ) (video : Bytes) (j : ℕ)
    → copy_page dest src video j
      ≡ (if leb dest j && ltb j (dest + 4096) then video (src + (j - dest)) else video j)
unfolding copy_page
copy_page_lem dest src video j = ground (arith, copy_lem 4096 0 dest (λ c. video (src + c)) video j)

-- After a switch between two different terminals, the screen of the terminal that was left is on its page with its cursor saved, the
-- screen and the cursor are those that the other terminal had, and no third page changes.
pub switch_terminals_lem :
    (previous next : ℕ) (k : Kernel)
    → previous ≢ next
    → let k' = switch_terminals previous next k in
      (k'.terminal_num ≡ next)
      × (k'.console.screen_x ≡ (k.terminal next).save_x)
      × (k'.console.screen_y ≡ (k.terminal next).save_y)
      × ((k'.terminal previous).save_x ≡ k.console.screen_x)
      × ((k'.terminal previous).save_y ≡ k.console.screen_y)
      × ((j : ℕ) → j < 4096 → k'.console.video j ≡ page k next j)
      × ((j : ℕ) → j < 4096 → page k' previous j ≡ k.console.video j)
      × ((t j : ℕ) → t ≢ previous → j < 4096 → page k' t j ≡ page k t j)
unfolding switch_terminals switch_video_mem update_cursor
switch_terminals_lem previous next k ne =
    let video = copy_page ((previous + 1) * 4096) 0 k.console.video in
    (
      refl,
      ground arith,
      ground arith,
      ground arith,
      ground arith,
      λ j h. ground (
        arith,
        copy_page_lem 0 ((next + 1) * 4096) video j,
        copy_page_lem ((previous + 1) * 4096) 0 k.console.video ((next + 1) * 4096 + (j - 0)),
      ),
      λ j h. ground (
        arith,
        copy_page_lem 0 ((next + 1) * 4096) video ((previous + 1) * 4096 + j),
        copy_page_lem ((previous + 1) * 4096) 0 k.console.video ((previous + 1) * 4096 + j),
      ),
      λ t j nt h. ground (
        arith,
        copy_page_lem 0 ((next + 1) * 4096) video ((t + 1) * 4096 + j),
        copy_page_lem ((previous + 1) * 4096) 0 k.console.video ((t + 1) * 4096 + j),
      ),
    )

-- Switching away from a terminal to another one and back shows the same screen, with the cursor where it was, and
-- leaves the page of every other terminal as it was.
pub switch_terminals_back :
    (previous next : ℕ) (k : Kernel)
    → previous ≢ next
    → let k' = switch_terminals next previous (switch_terminals previous next k) in
      (k'.terminal_num ≡ previous)
      × (k'.console.screen_x ≡ k.console.screen_x)
      × (k'.console.screen_y ≡ k.console.screen_y)
      × ((j : ℕ) → j < 4096 → k'.console.video j ≡ k.console.video j)
      × ((t j : ℕ) → t ≢ previous → j < 4096 → page k' t j ≡ page k t j)
switch_terminals_back previous next k ne =
    let k1 = switch_terminals previous next k in
    let k2 = switch_terminals next previous k1 in
    let (_, _, _, x1, y1, screen1, saved1, other1) = switch_terminals_lem previous next k ne in
    let (num2, x2, y2, _, _, screen2, saved2, other2) =
      switch_terminals_lem next previous k1 (λ e. ne (sym e)) in
    let kept : (t j : ℕ) → t ≢ previous → j < 4096 → page k2 t j ≡ page k t j = λ t j h l.
      elim (ℕ_discrete t next) [
        | yes e ↦ rw e (saved2 j l ∙ screen1 j l)
        | no d ↦ other2 t j d l ∙ other1 t j h l
      ] in
    (num2, x2 ∙ x1, y2 ∙ y1, λ j h. screen2 j h ∙ saved1 j h, kept)
