-- ===== src/Bandwidth/Tests.antt =====
-- Runs of agent/bandwidth_accounting.py, and its theorem at an input where it applies.
use nexvary_panel.Base.{ℕ, String, ◌≡◌, refl, inl, NoBody, true, false, Option, none, some}
use nexvary_panel.Base.Text.{
  ◌⧺◌, chars, prefix, suffix, strip, lstrip, rstrip, is_space, all_chars, nth_char,
}
use nexvary_panel.Base.Names.{push}
use nexvary_panel.Base.Sets.{lookup}
use nexvary_panel.Base.Json.{parse_int, show_ℕ}
use nexvary_panel.Bandwidth.Log.{
  span, run, expect, is_visible, status, size_field, match_line, zeros, year_text, is_day,
  date_period, line_period, read_lines, ends_line, size_number, line_bytes, sum_lines, log_total,
  scan,
}
use nexvary_panel.Bandwidth.Account.{
  LogFile, Usage, sum_scans, unavailable, scanned, first_account, is_rotated, kept_bytes,
  kept_complete, next_account, account_domain,
}
use nexvary_panel.Bandwidth.Watch.{World, Step, Reach, nothing_yet, log_of}
use nexvary_panel.Bandwidth.Counted.{counted_all}

unfold_all : NoBody
unfolding chars prefix suffix strip lstrip rstrip is_space all_chars nth_char push lookup parse_int
    show_ℕ span run expect is_visible status size_field match_line zeros year_text is_day
    date_period line_period read_lines ends_line size_number line_bytes sum_lines log_total scan
    sum_scans unavailable scanned first_account is_rotated kept_bytes kept_complete next_account
    account_domain nothing_yet log_of
unfold_all = tt

abbrev line : String
line = "::1 - - [14/Sep/2026:05:34:00 +0000] \"GET / HTTP/1.1\" 200 120 \"-\"\n"

abbrev file : ℕ → String → Option LogFile
file i content = some (record { inode = i; content = content })

line_test : log_total "2026-09" (line ⧺ line) ≡ 240
unfolding unfold_all
line_test = refl

month_test : log_total "2026-10" line ≡ 0
unfolding unfold_all
month_test = refl

abbrev usage : ℕ → ℕ → ℕ → String → Usage
usage bytes i offset reason = record {
  period = "2026-09";
  bytes = bytes;
  complete = false;
  continuous = true;
  inode = some i;
  offset = offset;
  updated_at = 9;
  reason = reason;
}

abbrev first : Usage
first = usage 120 1 66 "tracking-started-mid-period"

first_test : account_domain "2026-09" 9 (file 1 line) none none ≡ some first
unfolding unfold_all
first_test = refl

-- A line that is not whole when the account is taken is lost, and the account still claims to be
-- continuous.
partial_test :
    account_domain "2026-09" 9 (file 1 (line ⧺ line)) none (some (usage 120 1 70 "continuous"))
    ≡ some (usage 120 1 132 "continuous")
unfolding unfold_all
partial_test = refl

abbrev after_rotation : World
after_rotation = record {
  current = file 2 line;
  rotated = file 1 (line ⧺ line);
  usage = some first;
  log = line ⧺ line ⧺ line;
  seen = line;
}

run_reached : Reach nothing_yet after_rotation
unfolding unfold_all
run_reached =
    Reach.next
      (Reach.next
        (Reach.next
          (Reach.next
            (Reach.next
              (Reach.next (Reach.next Reach.here (Step.create 1 refl tt refl))
                (Step.write (record { inode = 1; content = "" }) line refl refl refl))
              (Step.account "2026-09" 9 first tt refl refl))
            (Step.write (record { inode = 1; content = line }) line refl refl refl))
          (Step.rotate (record { inode = 1; content = line ⧺ line }) refl refl))
        (Step.create 2 refl refl refl))
      (Step.write (record { inode = 2; content = "" }) line refl refl refl)

counted_all_example :
    ◌≡◌ {A = String} "2026-09" "2026-09" × (360 ≡ log_total "2026-09" (log_of after_rotation))
unfolding unfold_all
counted_all_example =
    counted_all after_rotation "2026-09" 9 (usage 360 2 66 "continuous") run_reached (inl refl) refl
      refl
