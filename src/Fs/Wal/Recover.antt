-- ===== src/Fs/Wal/Recover.antt =====
-- The scan of the log when a database is opened: `recover_committed_frames` of
-- crates/boa_idb_fs/src/wal.rs. When the source leaves the loop it clears the pending frames, which
-- nothing reads after the loop; here the state stays as it was.
pub mod Frame
pub mod Transactions
pub mod Log
pub mod Crash
pub mod Total
use indexed_db_boa.Fs.Wal.{WalFrame, CodecError, flag_commit, flag_continues}
use indexed_db_boa.Fs.Wal.Decode.{decode_frame}
use indexed_db_boa.Base.{
  ℕ, zero, suc, ◌+◌, List, [], ◌∷◌, ◌++◌, Option, none, some, not, ◌&&◌, Result, ok, err, ltb, ◌==◌,
  length, drop, if◌then◌else◌,
}

-- The local variables of the loop.
pub record Scan : Type 0 where
  pub offset : ℕ
  pub committed : List WalFrame
  pub pending : List WalFrame
  pub pending_seq : Option ℕ
  pub valid_prefix : ℕ

pub record RecoveredWal : Type 0 where
  pub frames : List WalFrame
  pub valid_prefix_len : ℕ

abbrev pub scan_start : Scan
scan_start = record {
  offset = 0;
  committed = [];
  pending = [];
  pending_seq = none;
  valid_prefix = 0;
}

-- A frame whose flags are legal, with what is pending: `none` leaves the loop.
unfoldable pub accept_frame : Scan → WalFrame → ℕ → Option ℕ → Option Scan
accept_frame s frame next none =
    if frame.flags == flag_commit
    then some
        (record s { offset = next; committed = s.committed ++ frame ∷ []; valid_prefix = next })
    else some (record s {
      offset = next;
      pending_seq = some frame.txn_seq;
      pending = s.pending ++ frame ∷ [];
    })
accept_frame s frame next (some seq) =
    let chain = s.pending ++ frame ∷ [] in
    if not (frame.txn_seq == seq)
    then none
    else if frame.flags == flag_continues
    then some (record s { offset = next; pending = chain })
    else some (record {
      offset = next;
      committed = s.committed ++ chain;
      pending = [];
      pending_seq = none;
      valid_prefix = next;
    })

unfoldable pub scan_frame : Scan → WalFrame → ℕ → Option Scan
scan_frame s frame next =
    let is_commit = frame.flags == flag_commit in
    let is_continues = frame.flags == flag_continues in
    if not is_commit && not is_continues then none else accept_frame s frame next s.pending_seq

-- The match on what `decode_frame` gives.
unfoldable pub scan_next : Scan → Result CodecError (Option (WalFrame × ℕ)) → Option Scan
scan_next s (ok (some (frame, consumed))) = scan_frame s frame (s.offset + consumed)
scan_next s (ok none) = none
scan_next s (err e) = none

-- One round of the loop.
unfoldable pub scan_step : List ℕ → Scan → Option Scan
scan_step buf s =
    if ltb s.offset (length buf) then scan_next s (decode_frame (drop s.offset buf)) else none

unfoldable pub recover_loop : ℕ → List ℕ → Scan → Scan
recover_loop zero buf s = s
recover_loop (suc fuel) buf s = elim (scan_step buf s) [
  | none ↦ s
  | some s' ↦ recover_loop fuel buf s'
]

-- Every frame takes a byte at least.
unfoldable pub recover_committed_frames : List ℕ → RecoveredWal
recover_committed_frames buf =
    let s = recover_loop (length buf) buf scan_start in
    record { frames = s.committed; valid_prefix_len = s.valid_prefix }
