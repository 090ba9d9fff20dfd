-- ===== src/Bandwidth/Moves.antt =====
-- The steps of a site's log that leave the account of agent/bandwidth_accounting.py as it is.
use nexvary_panel.Base.{ℕ, String, ◌≡◌, refl, ap, sym, ◌∙◌, inl, true, false, Option, none, some}
use nexvary_panel.Base.Text.{◌⧺◌, append_assoc, append-nil}
use nexvary_panel.Bandwidth.Log.{ends_line}
use nexvary_panel.Bandwidth.Account.{LogFile, Usage, content_of, is_rotated}
use nexvary_panel.Bandwidth.Scanned.{IsWhole, append-IsWhole}
use nexvary_panel.Bandwidth.Watch.{World, IsFresh, Where, IsTracked, IsSound}

write-Where :
    (f : LogFile) (more : String) (current rotated : Option LogFile) (st : Usage) (unseen : String)
    → current ≡ some f
    → Where current rotated st unseen
    → Where (some (record f { content = f.content ⧺ more })) rotated st (unseen ⧺ more)
unfolding is_rotated
write-Where f more current rotated st unseen e (Where.same g a found inode content offset) =
    let k : some g ≡ some f = sym found ∙ e in
    let same : g ≡ f = cc k in
    Where.same (record f { content = f.content ⧺ more }) a refl (rw same at inode)
      (ap (λ t. t ⧺ more) (rw same at content) ∙ append_assoc a unseen more) offset
write-Where f more current rotated st unseen e
      (Where.moved g a b found inode content offset whole parts elsewhere) =
    let k : is_rotated st.inode (some f) ≡ false = rw e at elsewhere in
    Where.moved g a b found inode content offset whole
      (ap (λ t. t ⧺ more) (rw e at parts) ∙ append_assoc b f.content more) k
write-Where f more current rotated st unseen e (Where.lost elsewhere nowhere) =
    Where.lost (rw e at elsewhere) nowhere

rotate-Where :
    (f : LogFile) (current rotated : Option LogFile) (st : Usage) (unseen : String)
    → current ≡ some f
    → IsWhole unseen
    → Where current rotated st unseen
    → Where none (some f) st unseen
unfolding is_rotated
rotate-Where f current rotated st unseen e whole (Where.same g a found inode content offset) =
    let k : some g ≡ some f = sym found ∙ e in
    let same : g ≡ f = cc k in
    Where.moved f a unseen refl (rw same at inode) (rw same at content) offset whole
      (sym (append-nil unseen)) refl
rotate-Where f current rotated st unseen e whole
      (Where.moved g a b found inode content offset part parts elsewhere) =
    Where.lost refl (rw e at elsewhere)
rotate-Where f current rotated st unseen e whole (Where.lost elsewhere nowhere) =
    Where.lost refl (rw e at elsewhere)

create-Where :
    (i : ℕ) (current rotated : Option LogFile) (st : Usage) (unseen : String)
    → current ≡ none
    → is_rotated st.inode (some (record { inode = i; content = "" })) ≡ false
    → Where current rotated st unseen
    → Where (some (record { inode = i; content = "" })) rotated st unseen
unfolding is_rotated
create-Where i current rotated st unseen e fresh (Where.same g a found inode content offset) =
    absurd (let k : some g ≡ none = sym found ∙ e in cc k)
create-Where i current rotated st unseen e fresh
      (Where.moved g a b found inode content offset part parts elsewhere) =
    Where.moved g a b found inode content offset part (rw e at parts) fresh
create-Where i current rotated st unseen e fresh (Where.lost elsewhere nowhere) =
    Where.lost fresh nowhere

-- A step that leaves the state as it is.
kept-IsSound :
    (w : World) (current rotated : Option LogFile) (log : String)
    → IsSound w
    → IsWhole (content_of current)
    → IsWhole log
    → ((st : Usage)
        → w.usage ≡ some st
        → st.continuous ≡ true
        → IsTracked w st
        → IsTracked (record w { current = current; rotated = rotated; log = log }) st)
    → IsSound (record w { current = current; rotated = rotated; log = log })
kept-IsSound w current rotated log sound whole log_whole keep = record {
  current_whole = whole;
  log_whole = log_whole;
  seen_whole = sound.seen_whole;
  tracked = λ st e c. keep st e c (sound.tracked st e c);
}

pub write-IsSound :
    (w : World) (f : LogFile) (more : String)
    → IsSound w
    → w.current ≡ some f
    → ends_line more ≡ true
    → IsSound
        (record w { current = some (record f { content = f.content ⧺ more }); log = w.log ⧺ more })
write-IsSound w f more sound found whole =
    kept-IsSound w (some (record f { content = f.content ⧺ more })) w.rotated (w.log ⧺ more) sound
      (append-IsWhole f.content more whole) (append-IsWhole w.log more whole)
      (λ st e c t. record {
        unseen = t.unseen ⧺ more;
        log_parts = ap (λ s. s ⧺ more) t.log_parts ∙ append_assoc w.seen t.unseen more;
        counted = t.counted;
        unseen_whole = append-IsWhole t.unseen more whole;
        place = write-Where f more w.current w.rotated st t.unseen found t.place;
      })

pub rotate-IsSound :
    (w : World) (f : LogFile)
    → IsSound w
    → w.current ≡ some f
    → IsSound (record w { current = none; rotated = some f })
rotate-IsSound w f sound found =
    kept-IsSound w none (some f) w.log sound (inl refl) sound.log_whole (λ st e c t. record {
      unseen = t.unseen;
      log_parts = t.log_parts;
      counted = t.counted;
      unseen_whole = t.unseen_whole;
      place = rotate-Where f w.current w.rotated st t.unseen found t.unseen_whole t.place;
    })

pub create-IsSound :
    (w : World) (i : ℕ)
    → IsSound w
    → w.current ≡ none
    → IsFresh i w.usage
    → IsSound (record w { current = some (record { inode = i; content = "" }) })
create-IsSound w i sound gone fresh =
    kept-IsSound w (some (record { inode = i; content = "" })) w.rotated w.log sound (inl refl)
      sound.log_whole
      (λ st e c t. record {
        unseen = t.unseen;
        log_parts = t.log_parts;
        counted = t.counted;
        unseen_whole = t.unseen_whole;
        place = create-Where i w.current w.rotated st t.unseen gone (rw e at fresh) t.place;
      })

pub lose-IsSound : (w : World) → IsSound w → IsSound (record w { usage = none })
lose-IsSound w sound = record {
  current_whole = sound.current_whole;
  log_whole = sound.log_whole;
  seen_whole = sound.seen_whole;
  tracked = λ st e c. absurd (cc e);
}
