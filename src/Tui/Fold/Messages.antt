-- ===== src/Tui/Fold/Messages.antt =====
-- The text of a message, merged part by part into the transcript of its session.
use py_tui_kairo.Common.{
  ◌≡◌, ◌≢◌, ap, ◌∙◌, not, List, [], ◌∷◌, ◌++◌, String, str_eq, str_eq-false, eq_iff, eq_refl, arith,
  find-replaced, find-replaced_self, keep-replaced, append_assoc,
}
use py_tui_kairo.Contracts.Content.{ContentBlock}
use py_tui_kairo.Tui.State.{AppState, TranscriptEntry, SessionTranscript}
use py_tui_kairo.Tui.Reducer.{
  merge_entry, merge_transcript, replace_transcript, transcript_of, entries_of,
}

merge_entry_twice :
    (m r r' : String) (c c' : List ContentBlock) (xs : List TranscriptEntry)
    → merge_entry m r' c' (merge_entry m r c xs) ≡ merge_entry m r (c ++ c') xs
unfolding merge_entry
merge_entry_twice m r r' c c' [] = ground (arith, eq_refl m)
merge_entry_twice m r r' c c' (x ∷ xs) =
    ground (arith, eq_refl m, merge_entry_twice m r r' c c' xs, append_assoc x.content c c')

-- The transcript that replaces another is the one that is read.
transcript_of-replace_transcript :
    (i : String) (es : List TranscriptEntry) (s : AppState)
    → transcript_of i (replace_transcript s i es) ≡ es
unfolding replace_transcript
transcript_of-replace_transcript i es s = ap entries_of (
    find-replaced_self (λ (t : SessionTranscript). str_eq t.session_id i)
      (λ (t : SessionTranscript). not (str_eq t.session_id i))
      (record { session_id = i; entries = es }) s.transcripts (λ t h. ground arith) (eq_refl i))

replace_transcript_twice :
    (i : String) (es es' : List TranscriptEntry) (s : AppState)
    → replace_transcript (replace_transcript s i es) i es' ≡ replace_transcript s i es'
unfolding replace_transcript
replace_transcript_twice i es es' s =
    ap (λ ts. record s { transcripts = ts ++ record { session_id = i; entries = es' } ∷ [] })
      (keep-replaced (λ (t : SessionTranscript). not (str_eq t.session_id i))
        (record { session_id = i; entries = es }) s.transcripts (ap not (eq_refl i)))

-- Merging content into a session's transcript leaves the transcript of every other session.
merge_transcript-other :
    (s : AppState) (i j m r : String) (c : List ContentBlock)
    → i ≢ j
    → transcript_of j (merge_transcript s i m r c) ≡ transcript_of j s
unfolding merge_transcript replace_transcript
merge_transcript-other s i j m r c n = ap entries_of (
    find-replaced (λ (t : SessionTranscript). str_eq t.session_id j)
      (λ (t : SessionTranscript). not (str_eq t.session_id i))
      (record { session_id = i; entries = merge_entry m r c (transcript_of i s) }) s.transcripts
      (λ t h. ground (arith, eq_iff t.session_id j, eq_iff t.session_id i)) (str_eq-false i j n))

-- Content merged for a message in two parts, in whatever roles, stands once after the other: as if both came as one.
pub merge_transcript_twice :
    (s : AppState) (i m r r' : String) (c c' : List ContentBlock)
    → merge_transcript (merge_transcript s i m r c) i m r' c' ≡ merge_transcript s i m r (c ++ c')
unfolding merge_transcript
merge_transcript_twice s i m r r' c c' =
    replace_transcript_twice i _ _ s
    ∙ ap (replace_transcript s i) (
        ap (merge_entry m r' c') (transcript_of-replace_transcript i _ s)
        ∙ merge_entry_twice m r r' c c' (transcript_of i s))
