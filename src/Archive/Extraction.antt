-- ===== src/Archive/Extraction.antt =====
-- The end of the extraction script of lib/repository-baselines/archive.ts.
use mathlib.Core.Path.{subst}
use vigilo.Prelude.{
  ℕ, zero, suc, ◌≤◌, ◌<◌, ◌≡◌, ◌≢◌, ◌⊎◌, refl, sym, ap, ◌∙◌, arith, inl, inr, not, List, [], ◌∷◌,
  Option, none, some, Memᴰ, ◌==◌, nat_eq, list_eq, option_eq, or-eq-false, not-eq-false, ==→≡,
}
use vigilo.Prelude.Options.{bind-eq-some, reject_if-eq-some, some-injective}
use vigilo.Archive.Bytes.{Host, Input}
use vigilo.Archive.Reader.{file, Output, Reader, start}
use vigilo.Archive.Consume.{consume_round, consume, feed, feed_all, accept, extract, unless_out}
use vigilo.Archive.Cases.{IsSafePath}
use vigilo.Archive.Sound.{IsSound, IsSound-same, start-IsSound, content_length, Apart}
use vigilo.Archive.Rounds.{consume_round-IsSound}
use vigilo.Archive.Progress.{consume-ends, go_on-eq-some}

unless_out-eq-some :
    (rest : Reader → Option (Option Reader)) (fed : Option Reader) {left : Option Reader}
    → unless_out rest fed ≡ some left
    → ((fed ≡ none) × (left ≡ none)) ⊎ ((r : Reader) × (fed ≡ some r) × (rest r ≡ some left))
unfolding unless_out
unless_out-eq-some rest none h = inl (refl, sym (some-injective h))
unless_out-eq-some rest (some r) h = inr (r, refl, h)

some_ne_none : {r : Reader} → some r ≢ none
some_ne_none h = cc

module _ (host : Host) (input : Input) where
  consume-IsSound :
      (fuel : ℕ) (r : Reader) {after : Reader}
      → IsSound host input r
      → consume fuel host input r ≡ some (some after)
      → IsSound host input after
  unfolding consume
  consume-IsSound zero r s h = cc
  consume-IsSound (suc fuel) r {after} s h = elim (go_on-eq-some _ (consume_round host input r) h) [
    | inl (_, f, g) ↦
        subst (IsSound host input) (some-injective g) (consume_round-IsSound host input r s f)
    | inr (r', f, g) ↦ consume-IsSound fuel r' (consume_round-IsSound host input r s f) g
  ]

  feed-IsSound :
      (chunk : List ℕ) (r : Reader) {after : Reader}
      → IsSound host input r
      → feed host input chunk r ≡ some (some after)
      → IsSound host input after
  unfolding feed
  feed-IsSound chunk r s h =
      let (_, r₁) = reject_if-eq-some _ _ h in
      consume-IsSound _ _ (IsSound-same host input refl refl refl refl refl s) r₁

  feed_all-IsSound :
      (chunks : List (List ℕ)) (r : Reader) {after : Reader}
      → IsSound host input r
      → feed_all host input chunks r ≡ some (some after)
      → IsSound host input after
  unfolding feed_all
  feed_all-IsSound [] r s h = consume-IsSound _ r s h
  feed_all-IsSound (chunk ∷ chunks) r s h =
      let (fed, h₁, r₁) = bind-eq-some _ _ h in
      elim (unless_out-eq-some _ fed r₁) [
        | inl (_, f) ↦ absurd (some_ne_none f)
        | inr (r', f, g) ↦ feed_all-IsSound chunks r' (feed-IsSound chunk r s (h₁ ∙ ap some f)) g
      ]

  feed-ends : (chunk : List ℕ) (r : Reader) → feed host input chunk r ≢ some none
  unfolding feed
  feed-ends chunk r h =
      let (_, r₁) = reject_if-eq-some _ _ h in consume-ends host input _ _ (omega arith) r₁

  feed_all-ends : (chunks : List (List ℕ)) (r : Reader) → feed_all host input chunks r ≢ some none
  unfolding feed_all
  feed_all-ends [] r h = consume-ends host input _ r (omega arith) h
  feed_all-ends (chunk ∷ chunks) r h =
      let (fed, h₁, r₁) = bind-eq-some _ _ h in
      elim (unless_out-eq-some _ fed r₁) [
        | inl (f, _) ↦ feed-ends chunk r (h₁ ∙ ap some f)
        | inr (r', _, g) ↦ feed_all-ends chunks r' g
      ]

  -- The extraction ends on every stream: the fuel of its loop, which counts the bytes that are
  -- pending, never runs out, however the stream is cut into chunks.
  pub extract-ends : (chunks : List (List ℕ)) → extract host input chunks ≢ some none
  unfolding extract
  extract-ends chunks h =
      let (read, h₁, r₁) = bind-eq-some _ _ h in
      elim (unless_out-eq-some _ read r₁) [
        | inl (f, _) ↦ feed_all-ends chunks start (h₁ ∙ ap some f)
        | inr (r', _, g) ↦ let (_, _, e) = bind-eq-some _ _ g in some_ne_none (some-injective e)
      ]

  -- What a finished extraction has established.
  pub record IsExtraction (r : Reader) : Type 0 where
    pub commit : r.pax_commit ≡ some input.expected_commit_sha
    pub some_entry : 0 < r.entries
    pub entries : r.entries ≤ input.limits.maximum_entries
    pub size : content_length r.outputs ≤ input.limits.maximum_total_file_bytes
    pub safe : (o : Output) → Memᴰ o r.outputs → IsSafePath host input o.path
    pub listed : (o : Output) → Memᴰ o r.outputs → Memᴰ (o.path, file) r.paths
    pub apart : Apart r.paths

  accept-IsExtraction :
      (r : Reader) {after : Reader}
      → IsSound host input r
      → accept input r ≡ some after
      → IsExtraction after
  unfolding accept
  accept-IsExtraction r s h =
      let (h₁, r₁) = reject_if-eq-some _ _ h in
      let (h₂, commit) = or-eq-false _ (not (r.pax_commit == some input.expected_commit_sha)) h₁ in
      let (_, entries) = or-eq-false _ (r.entries == 0) h₂ in
      subst IsExtraction (some-injective r₁) (record {
        commit = ==→≡ _ _ (not-eq-false _ commit);
        some_entry = ground (arith, entries);
        entries = s.entries;
        size = omega (arith, s.balance, s.bytes);
        safe = λ o m. s.safe o.path file (s.written o m);
        listed = s.written;
        apart = s.apart;
      })

  -- When the extraction succeeds, the commit that the archive names is the expected one; there is
  -- an entry and no more entries than allowed; the files hold no more bytes than allowed in all;
  -- the path of every file has only parts that are names (not empty, not `.` or `..`, without a
  -- slash or a backslash), is no deeper than allowed and resolves to a place inside the root; every
  -- file is among the listed paths, no path is listed twice, and no file lies above another path.
  pub extract-IsExtraction :
      (chunks : List (List ℕ)) (r : Reader)
      → extract host input chunks ≡ some (some r)
      → IsExtraction r
  unfolding extract
  extract-IsExtraction chunks r h =
      let (read, h₁, r₁) = bind-eq-some _ _ h in
      elim (unless_out-eq-some _ read r₁) [
        | inl (_, f) ↦ absurd (some_ne_none f)
        | inr (r', f, g) ↦
            let (accepted, h₂, e) = bind-eq-some _ _ g in
            accept-IsExtraction r'
              (feed_all-IsSound chunks start (start-IsSound host input) (h₁ ∙ ap some f))
              (h₂ ∙ ap some (some-injective (some-injective e)))
      ]
