-- ===== src/Archive/Consume.antt =====
-- The loop of `consume` in lib/repository-baselines/archive.ts, and the script around it.
use vigilo.Prelude.{
  ℕ, zero, suc, ◌+◌, ◌*◌, ◌-◌, not, ◌||◌, List, [], ◌∷◌, ◌++◌, Option, none, some, eqb, ltb,
  if◌then◌else◌, length, any, take, drop, ◌==◌, nat_eq, list_eq, option_eq, is_some, min,
}
use vigilo.Prelude.Options.{◌>>=◌, ◌>>◌, reject_if}
use vigilo.Archive.Bytes.{Host, Input}
use vigilo.Archive.Reader.{Output, Entry, global_entry, directory_entry, file_entry, Reader, start}
use vigilo.Archive.Pax.{accept_global_pax}
use vigilo.Archive.Entries.{begin_entry}

-- `writeSync` on the open file, which is the newest one.
abbrev pub write : List ℕ → List Output → List Output
write bytes [] = []
write bytes (o ∷ os) = record o { content = o.content ++ bytes } ∷ os

-- What one round of the loop in `consume` does: return, or go on.
pub data Round : Type 0 where
  done more : Reader → Round

-- The padding behind an entry, and the next entry.
abbrev pub skip_padding : ℕ → Entry → Reader → Round
skip_padding padding entry r =
    if ltb (length r.pending) padding
    then done (record r { current = some entry })
    else more (record r { pending = drop padding r.pending; current = none })

unfoldable pub read_file : ℕ → ℕ → Reader → Round
read_file padding zero r = skip_padding padding (file_entry padding 0) r
read_file padding (suc remaining) r =
    if length r.pending == 0
    then done r
    else let len = min (suc remaining) (length r.pending) in
      let left = suc remaining - len in
      let taken : Reader = record r {
        outputs = write (take len r.pending) r.outputs;
        pending = drop len r.pending;
        current = some (file_entry padding left);
      } in
      if ltb 0 left then done taken else skip_padding padding (file_entry padding 0) taken

unfoldable pub read_global : Host → Input → List ℕ → ℕ → ℕ → Reader → Option Round
read_global host input chunks padding zero r =
    some (skip_padding padding (global_entry chunks padding 0) r)
read_global host input chunks padding (suc remaining) r =
    if length r.pending == 0
    then some (done r)
    else let len = min (suc remaining) (length r.pending) in
      let left = suc remaining - len in
      let read = chunks ++ take len r.pending in
      let taken : Reader = record r {
        pending = drop len r.pending;
        current = some (global_entry read padding left);
      } in
      if ltb 0 left then some (done taken) else do
        accepted ← accept_global_pax host input read taken
        some (skip_padding padding (global_entry read padding 0) accepted)

unfoldable pub round_of : Host → Input → Option Entry → Reader → Option Round
round_of host input none r =
    if ltb (length r.pending) 512
    then some (done r)
    else begin_entry host input (take 512 r.pending) (record r { pending = drop 512 r.pending })
      >>= λ begun. some (more begun)
round_of host input (some directory_entry) r = some (skip_padding 0 directory_entry r)
round_of host input (some (file_entry padding remaining)) r = some (read_file padding remaining r)
round_of host input (some (global_entry chunks padding remaining)) r =
    read_global host input chunks padding remaining r

unfoldable pub consume_round : Host → Input → Reader → Option Round
consume_round host input r =
    if r.ended
    then reject_if (any (λ b. not (eqb b 0)) r.pending) >> some (done (record r { pending = [] }))
    else round_of host input r.current r

-- What is left to do behind a round: nothing, or the rounds behind it.
unfoldable pub go_on : (Reader → Option (Option Reader)) → Option Round → Option (Option Reader)
go_on again none = none
go_on again (some (done r)) = some (some r)
go_on again (some (more r)) = again r

-- The loop of `consume`. `none` is a failure, `some none` that the fuel ran out.
unfoldable pub consume : ℕ → Host → Input → Reader → Option (Option Reader)
consume zero host input r = some none
consume (suc fuel) host input r = go_on (consume fuel host input) (consume_round host input r)

-- Twice the pending bytes, and one round for the current entry.
abbrev pub rounds_left : Reader → ℕ
rounds_left r = 2 * length r.pending + (if is_some r.current then 1 else 0)

-- One chunk of the decompressed stream.
unfoldable pub feed : Host → Input → List ℕ → Reader → Option (Option Reader)
feed host input chunk r = do
  let total = r.total_tar_bytes + length chunk
  reject_if (ltb input.limits.maximum_tar_bytes total)
  let filled : Reader = record r { pending = r.pending ++ chunk; total_tar_bytes = total }
  consume (suc (rounds_left filled)) host input filled

unfoldable pub unless_out :
    (Reader → Option (Option Reader)) → Option Reader → Option (Option Reader)
unless_out rest none = some none
unless_out rest (some r) = rest r

-- The whole stream, a chunk at a time, up to the last `consume`.
unfoldable pub feed_all : Host → Input → List (List ℕ) → Reader → Option (Option Reader)
feed_all host input [] r = consume (suc (rounds_left r)) host input r
feed_all host input (chunk ∷ chunks) r =
    feed host input chunk r >>= unless_out (feed_all host input chunks)

-- The final test, after which the extraction has succeeded.
unfoldable pub accept : Input → Reader → Option Reader
accept input r = do
  reject_if (
      not r.ended
      || is_some r.current
      || not (length r.pending == 0)
      || not (is_some r.archive_root)
      || r.entries == 0
      || not (r.pax_commit == some input.expected_commit_sha))
  some r

unfoldable pub extract : Host → Input → List (List ℕ) → Option (Option Reader)
extract host input chunks =
    feed_all host input chunks start
    >>= unless_out (λ r. accept input r >>= λ accepted. some (some accepted))
