-- ===== src/Bandwidth/Counted.antt =====
-- What agent/bandwidth_accounting.py has counted when it claims that its account is continuous.
use mathlib.Core.Path.{subst}
use nexvary_panel.Base.{
  ℕ, String, ◌≡◌, refl, ap, sym, ◌∙◌, inl, inr, true, Option, some, Option-cases,
}
use nexvary_panel.Base.Text.{append-nil}
use nexvary_panel.Bandwidth.Log.{log_total}
use nexvary_panel.Bandwidth.Account.{LogFile, Usage, account_domain}
use nexvary_panel.Bandwidth.Scanned.{IsWhole}
use nexvary_panel.Bandwidth.Watch.{
  World, log_of, IsTimely, Step, Reach, nothing_yet, Where, IsTracked, IsSound,
}
use nexvary_panel.Bandwidth.Moves.{write-IsSound, rotate-IsSound, create-IsSound, lose-IsSound}
use nexvary_panel.Bandwidth.Exact.{IsCounted, account-IsCounted}

log_of-IsWhole : (w : World) → IsSound w → IsWhole (log_of w)
unfolding log_of
log_of-IsWhole w sound = elim (Option-cases w.usage) [
  | inl fresh ↦ rw (log_of, fresh) sound.current_whole
  | inr (st, kept) ↦ rw (log_of, kept) sound.log_whole
]

account-IsTracked :
    (g : LogFile) (rotated : Option LogFile) (current : Option LogFile) (log : String) (u : Usage)
    → current ≡ some g
    → IsCounted u.period g log u
    → IsTracked
        (record { current = current; rotated = rotated; usage = some u; log = log; seen = log })
        u
account-IsTracked g rotated current log u found (period, bytes, inode, offset) = record {
  unseen = "";
  log_parts = sym (append-nil log);
  counted = bytes;
  unseen_whole = inl refl;
  place = Where.same g g.content found inode (sym (append-nil g.content)) offset;
}

account-IsSound :
    (period : String) (now : ℕ) (w : World) (u : Usage)
    → IsSound w
    → IsTimely period w.seen w.usage
    → account_domain period now w.current w.rotated w.usage ≡ some u
    → IsSound (record w { usage = some u; log = log_of w; seen = log_of w })
account-IsSound period now w u sound timely h = record {
  current_whole = sound.current_whole;
  log_whole = log_of-IsWhole w sound;
  seen_whole = log_of-IsWhole w sound;
  tracked = λ st e c.
      let same : u ≡ st = cc e in
      let goes : u.continuous ≡ true = ap (λ (x : Usage). x.continuous) same ∙ c in
      let (g, found, (p, bytes, inode, offset)) =
        account-IsCounted period now w u sound timely h goes in
      let counted : IsCounted u.period g (log_of w) u =
        (refl, bytes ∙ ap (λ q. log_total q (log_of w)) (sym p), inode, offset) in
      subst
        (λ (x : Usage). IsTracked (record w { usage = some u; log = log_of w; seen = log_of w }) x)
        same (account-IsTracked g w.rotated w.current (log_of w) u found counted);
}

Step-IsSound : (s t : World) → Step s t → IsSound s → IsSound t
Step-IsSound s t (Step.write f more found whole e) sound =
    subst IsSound (sym e) (write-IsSound s f more sound found whole)
Step-IsSound s t (Step.rotate f found e) sound =
    subst IsSound (sym e) (rotate-IsSound s f sound found)
Step-IsSound s t (Step.create i gone fresh e) sound =
    subst IsSound (sym e) (create-IsSound s i sound gone fresh)
Step-IsSound s t (Step.account period now usage timely h e) sound =
    subst IsSound (sym e) (account-IsSound period now s usage sound timely h)
Step-IsSound s t (Step.lose e) sound = subst IsSound (sym e) (lose-IsSound s sound)

nothing_yet-IsSound : IsSound nothing_yet
unfolding nothing_yet
nothing_yet-IsSound = record {
  current_whole = inl refl;
  log_whole = inl refl;
  seen_whole = inl refl;
  tracked = λ st e c. absurd (cc e);
}

Reach-IsSound : (w : World) → Reach nothing_yet w → IsSound w
Reach-IsSound w Reach.here = nothing_yet-IsSound
Reach-IsSound w (Reach.next {t} r step) = Step-IsSound t w step (Reach-IsSound t r)

-- Whatever order the server writes whole lines, rotates the log, makes new files that the state does
-- not remember, and the account is taken, an account in a month of which no line was read in another
-- month, if it says that it is continuous, has counted exactly the bytes of that month in all that
-- was written since the account began, across rotations.
pub counted_all :
    (w : World) (period : String) (now : ℕ) (u : Usage)
    → Reach nothing_yet w
    → IsTimely period w.seen w.usage
    → account_domain period now w.current w.rotated w.usage ≡ some u
    → u.continuous ≡ true
    → (u.period ≡ period) × (u.bytes ≡ log_total period (log_of w))
counted_all w period now u reach timely h c =
    let (g, found, (p, bytes, inode, offset)) =
      account-IsCounted period now w u (Reach-IsSound w reach) timely h c in
    (p, bytes)
