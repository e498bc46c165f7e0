-- ===== src/Lab/SupervisorLog.antt =====
-- A supervisor's log of at most four bytes.
use apple_pod_control.Prelude.{◌≡◌, ◌≢◌, ◌≤◌, ◌↔◌, refl, true, false, [], ◌∷◌, ◌++◌, length, min}
use apple_pod_control.Text.{Text, text, split, is_empty, trim_space, contains_text}
use apple_pod_control.Text.Numbers.{parse_uint}
use apple_pod_control.Host.Action.{ok}
use apple_pod_control.SupervisorLog.{
  LogFile, Disk, Sink, finished, unfinished, open_sink, write, reset_locked, to_write, must_reset,
  last_bytes, sized, called,
}
use apple_pod_control.SupervisorLog.Bounds.{writes, closes, after_calls, log_stays_bounded}
use apple_pod_control.SupervisorLog.Acl.{
  reject_supervisor_acl_grants, OnlyDenials, reject_supervisor_acl_grants-OnlyDenials,
}
use apple_pod_control.SupervisorLog.Written.{Wrote, write_comes_back, write-Wrote}

-- Every call succeeds, and a write takes at most three bytes.
abbrev small_writes : LogFile
small_writes = record {
  stat_fails = λ n. false;
  truncate_fails = λ n. false;
  seek_fails = λ n. false;
  write_fails = λ n. false;
  sync_fails = λ n. false;
  close_fails = λ n. false;
  accepts = λ n len. min len 3;
}

abbrev old_disk : Disk
old_disk = record { content = text "ab"; calls = 0 }

abbrev opened : Sink
opened = record {
  log = record { has_file = true; maximum = 4; size = 2; closed = false };
  disk = old_disk;
}

opens : open_sink small_writes 4 old_disk ≡ (finished, opened)
unfolding open_sink
opens = refl

log_stays_bounded_example :
    length
      (after_calls small_writes
        (writes (text "cd") ∷ writes (text "efghij") ∷ closes ∷ [])
        opened).disk.content
    ≤ 4
log_stays_bounded_example =
    log_stays_bounded small_writes 4 old_disk opened
      (writes (text "cd") ∷ writes (text "efghij") ∷ closes ∷ []) opens

write_comes_back_example : (write small_writes opened (text "efghij")).verdict ≢ unfinished
write_comes_back_example = write_comes_back small_writes opened (text "efghij")

long_write : (write small_writes opened (b'e' ∷ text "fghij")).verdict ≡ finished
unfolding write sized called reset_locked to_write must_reset last_bytes
long_write = refl

keeps_the_end : (write small_writes opened (b'e' ∷ text "fghij")).sink.disk.content ≡ text "ghij"
unfolding write sized called reset_locked to_write must_reset last_bytes
keeps_the_end = refl

write-Wrote_example :
    Wrote opened (b'e' ∷ text "fghij") (write small_writes opened (b'e' ∷ text "fghij"))
write-Wrote_example = write-Wrote small_writes opened b'e' (text "fghij") long_write

-- The listing of a home directory with the entry that macOS gives it.
abbrev home_listing : Text
home_listing =
    text "drwx------+ 42 admin staff 1344 Jan 1 00:00 /Users/admin"
    ++ 10 ∷ text " 0: group:everyone deny delete"
    ++ 10 ∷ []

home_listing_accepted : reject_supervisor_acl_grants home_listing ≡ ok tt
unfolding reject_supervisor_acl_grants split is_empty trim_space parse_uint contains_text
home_listing_accepted = refl

reject_supervisor_acl_grants-OnlyDenials_example :
    (reject_supervisor_acl_grants home_listing ≡ ok tt) ↔ OnlyDenials (split 10 home_listing)
reject_supervisor_acl_grants-OnlyDenials_example =
    reject_supervisor_acl_grants-OnlyDenials home_listing
