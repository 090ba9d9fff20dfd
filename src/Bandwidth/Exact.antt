-- ===== src/Bandwidth/Exact.antt =====
-- One account of a site by agent/bandwidth_accounting.py is exact.
use mathlib.Core.Path.{subst}
use nexvary_panel.Base.{
  ℕ, ◌+◌, String, ◌==◌, ◌≡◌, refl, ap, sym, ◌∙◌, ◌⊎◌, inl, inr, Bool, true, false, Option, none,
  some, eqb_refl, arith, eq_iff, Bool-cases, Option-cases,
}
use nexvary_panel.Base.Text.{◌⧺◌, chars}
use nexvary_panel.Bandwidth.Log.{log_total, scan}
use nexvary_panel.Bandwidth.Account.{
  LogFile, Usage, content_of, is_inode, is_rotated, sum_scans, unavailable, scanned, first_account,
  kept_bytes, next_account, account_domain,
}
use nexvary_panel.Bandwidth.Scanned.{IsWhole, log_total-append, scan-append}
use nexvary_panel.Bandwidth.Watch.{World, log_of, IsTimely, Where, IsSound}

kept_lem :
    (period seen : String) (st : Usage)
    → st.bytes ≡ log_total st.period seen
    → (st.period ≡ period) ⊎ (log_total period seen ≡ 0)
    → kept_bytes period st ≡ log_total period seen
unfolding kept_bytes
kept_lem period seen st counted (inl same) =
    rw ((eq_iff st.period period).1 same) (counted ∙ ap (λ p. log_total p seen) same)
kept_lem period seen st counted (inr other) = elim (Bool-cases (st.period == period)) [
  | inl same ↦ rw same (counted ∙ ap (λ p. log_total p seen) ((eq_iff st.period period).0 same))
  | inr differs ↦ rw differs (sym other)
]

-- an account that has read all of the current file, and has counted what was read
abbrev pub IsCounted : String → LogFile → String → Usage → Type 0
IsCounted period g log u =
    (u.period ≡ period)
    × (u.bytes ≡ log_total period log)
    × (u.inode ≡ some g.inode)
    × (u.offset ≡ chars g.content)

sum_lem :
    (period seen unseen : String) (kept : ℕ)
    → IsWhole seen
    → kept ≡ log_total period seen
    → kept + log_total period unseen ≡ log_total period (seen ⧺ unseen)
sum_lem period seen unseen kept whole e =
    omega (arith, e, log_total-append period seen unseen whole)

scan_all :
    (period content : String)
    → scan content 0 period ≡ some (log_total period content, chars content)
unfolding chars
scan_all period content = scan-append period "" content

next-IsCounted :
    (period : String) (now : ℕ) (g : LogFile) (rotated : Option LogFile) (st : Usage)
    (seen unseen : String)
    → IsWhole seen
    → kept_bytes period st ≡ log_total period seen
    → Where (some g) rotated st unseen
    → (next_account period now g rotated st).continuous ≡ true
    → IsCounted period g (seen ⧺ unseen) (next_account period now g rotated st)
unfolding next_account scanned sum_scans is_rotated
next-IsCounted period now g rotated st seen unseen whole kept
      (Where.same f a found inode content offset) h =
    let k : some g ≡ some f = found in
    let same : f ≡ g = cc k in
    let place : st.inode ≡ some g.inode = rw same at inode in
    let hit : is_inode st.inode g.inode ≡ true = rw place (eqb_refl g.inode) in
    let parts : g.content ≡ a ⧺ unseen = rw same at content in
    let read : scan g.content st.offset period ≡ some (log_total period unseen, chars g.content) =
      ap (λ t. scan t st.offset period) parts
      ∙ ap (λ n. scan (a ⧺ unseen) n period) offset
      ∙ scan-append period a unseen
      ∙ ap (λ t. some (log_total period unseen, chars t)) (sym parts) in
    rw (next_account, hit, read)
      (refl, sum_lem period seen unseen (kept_bytes period st) whole kept, refl, refl)
next-IsCounted period now g rotated st seen unseen whole kept
      (Where.moved f a b found inode content offset part parts elsewhere) h =
    let miss : is_inode st.inode g.inode ≡ false = elsewhere in
    let hit : is_rotated st.inode rotated ≡ true = rw (found, inode) (eqb_refl f.inode) in
    let old : scan (content_of rotated) st.offset period
        ≡ some (log_total period b, chars (a ⧺ b)) =
      ap (λ r. scan (content_of r) st.offset period) found
      ∙ ap (λ t. scan t st.offset period) content
      ∙ ap (λ n. scan (a ⧺ b) n period) offset
      ∙ scan-append period a b in
    let new : scan g.content 0 period ≡ some (log_total period g.content, chars g.content) =
      scan_all period g.content in
    let total : log_total period b + log_total period g.content ≡ log_total period unseen =
      sym (log_total-append period b g.content part) ∙ ap (log_total period) (sym parts) in
    rw (next_account, miss, hit, old, new)
      (
        refl,
        ap (λ n. kept_bytes period st + n) total
            ∙ sum_lem period seen unseen (kept_bytes period st) whole kept,
        refl,
        refl,
      )
next-IsCounted period now g rotated st seen unseen whole kept (Where.lost elsewhere nowhere) h =
    let miss : is_inode st.inode g.inode ≡ false = elsewhere in
    absurd (cc (rw (next_account, miss, nowhere, scan_all period g.content) at h))

scanned_continuous :
    (period : String) (now : ℕ) (g : LogFile) (total : ℕ) (complete continuous : Bool)
    (reason : String) (r : Option (ℕ × ℕ))
    → (scanned period now g total complete continuous reason r).continuous ≡ true
    → continuous ≡ true
unfolding scanned
scanned_continuous period now g total complete continuous reason none h = absurd (cc h)
scanned_continuous period now g total complete continuous reason (some (added, end')) h = h

-- An account is continuous only if the one before it was.
still_continuous :
    (period : String) (now : ℕ) (g : LogFile) (rotated : Option LogFile) (st : Usage)
    → (next_account period now g rotated st).continuous ≡ true
    → st.continuous ≡ true
unfolding next_account
still_continuous period now g rotated st h = elim (Bool-cases (is_inode st.inode g.inode)) [
  | inl hit ↦ scanned_continuous period now g _ _ st.continuous _ _ (rw (next_account, hit) at h)
  | inr miss ↦ elim (Bool-cases (is_rotated st.inode rotated)) [
    | inl moved ↦
        scanned_continuous period now g _ _ st.continuous _ _ (rw (next_account, miss, moved) at h)
    | inr lost ↦
        absurd
          (cc (scanned_continuous period now g _ _ false _ _ (rw (next_account, miss, lost) at h)))
  ]
]

first-IsCounted :
    (period : String) (now : ℕ) (g : LogFile) (u : Usage)
    → first_account period now g ≡ some u
    → IsCounted period g g.content u
unfolding first_account
first-IsCounted period now g u h =
    let k : some (record {
      period = period;
      bytes = log_total period g.content;
      complete = false;
      continuous = true;
      inode = some g.inode;
      offset = chars g.content;
      updated_at = now;
      reason = "tracking-started-mid-period";
    })
        ≡ some u =
      rw (first_account, scan_all period g.content) at h in
    ground (arith, k)

next_tracked :
    (period : String) (now : ℕ) (w : World) (g : LogFile) (st : Usage)
    → IsSound w
    → w.usage ≡ some st
    → w.current ≡ some g
    → (st.period ≡ period) ⊎ (log_total period w.seen ≡ 0)
    → (next_account period now g w.rotated st).continuous ≡ true
    → IsCounted period g w.log (next_account period now g w.rotated st)
next_tracked period now w g st sound kept found timely c =
    let tracked = sound.tracked st kept (still_continuous period now g w.rotated st c) in
    let place : Where (some g) w.rotated st tracked.unseen =
      subst (λ (f : Option LogFile). Where f w.rotated st tracked.unseen) found tracked.place in
    subst (λ (t : String). IsCounted period g t (next_account period now g w.rotated st))
      (sym tracked.log_parts)
      (next-IsCounted period now g w.rotated st w.seen tracked.unseen sound.seen_whole
        (kept_lem period w.seen st tracked.counted timely) place c)

-- What an account that ends continuous has read: all that was written.
pub account-IsCounted :
    (period : String) (now : ℕ) (w : World) (u : Usage)
    → IsSound w
    → IsTimely period w.seen w.usage
    → account_domain period now w.current w.rotated w.usage ≡ some u
    → u.continuous ≡ true
    → (g : LogFile) × (w.current ≡ some g) × IsCounted period g (log_of w) u
unfolding account_domain unavailable log_of
account-IsCounted period now w u sound timely h c = elim (Option-cases w.current) [
  | inl gone ↦
      let k : some (unavailable period now) ≡ some u = rw (account_domain, gone) at h in
      let same : unavailable period now ≡ u = cc k in
      let off : (unavailable period now).continuous ≡ true =
        ap (λ (x : Usage). x.continuous) same ∙ c in
      absurd (cc off)
  | inr (g, found) ↦ elim (Option-cases w.usage) [
    | inl fresh ↦
        let k : first_account period now g ≡ some u = rw (account_domain, found, fresh) at h in
        (g, found, rw (log_of, fresh, found) (first-IsCounted period now g u k))
    | inr (st, kept) ↦
        let k : some (next_account period now g w.rotated st) ≡ some u =
          rw (account_domain, found, kept) at h in
        let same : next_account period now g w.rotated st ≡ u = cc k in
        let t : (st.period ≡ period) ⊎ (log_total period w.seen ≡ 0) = rw kept at timely in
        let goes : (next_account period now g w.rotated st).continuous ≡ true =
          ap (λ (x : Usage). x.continuous) same ∙ c in
        (
          g,
          found,
          rw (log_of, kept)
              (subst (λ (x : Usage). IsCounted period g w.log x) same
                (next_tracked period now w g st sound kept found t goes)),
        )
  ]
]
