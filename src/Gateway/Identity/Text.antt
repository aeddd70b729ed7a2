-- ===== src/Gateway/Identity/Text.antt =====
-- internal/gateway/identity_text_stream.go: where an instruction's opening sentence names a model.
-- Go's tables of characters and its two regular expressions are a parameter.
pub mod Halting
use cliproxy_portal.Common.{
  ℕ, zero, suc, ◌+◌, ◌-◌, Bool, true, false, not, ◌&&◌, ◌||◌, Option, none, some, List, [], ◌∷◌,
  ◌++◌, map, ltb, ◌==◌, if◌then◌else◌, length, take, drop,
}
use cliproxy_portal.Gateway.Identity.{
  Span, ScanError, end_of_file, bad_text, out_of_fuel, Result, ok, failed, ◌>>=◌,
}
use cliproxy_portal.Gateway.Identity.Runes.{Rune, Runes, read_runes}

-- Package unicode's tables, and `FindReaderIndex` of the opening and of the qualifier: from the
-- characters of a reader with their sizes, the two offsets of the first match.
pub record Tables : Type 0 where
  pub is_letter : ℕ → Bool
  pub is_digit : ℕ → Bool
  pub is_separator : ℕ → Bool
  pub is_space : ℕ → Bool
  pub opening : List (ℕ × ℕ) → Option (ℕ × ℕ)
  pub qualifier : List (ℕ × ℕ) → Option (ℕ × ℕ)

-- The bytes of the file, the part of them that is the text, and whether it is escaped.
pub record Source : Type 0 where
  pub raw : List ℕ
  pub span : Span
  pub escaped : Bool

-- The bytes of a section of the file.
abbrev pub section : List ℕ → (start end : ℕ) → List ℕ
section raw start end = take (end - start) (drop start raw)

unfoldable pub runes : Source → ℕ → Runes
runes source start =
    let bytes = section source.raw start source.span.end in
    read_runes (length bytes) source.escaped start bytes

-- What the regular expressions read.
abbrev pub chars : List Rune → List (ℕ × ℕ)
chars items = map (λ (r : Rune). (r.char, r.size)) items

-- The character at the front, and 0 where there is none.
abbrev pub front : List Rune → ℕ
front [] = 0
front (r ∷ rs) = r.char

-- The quote that is open, 0 for none, and the character before.
pub record QuoteState : Type 0 where
  pub quote : ℕ
  pub previous : ℕ

-- A match on its way: where it begins, whether that is in quotes, and how far it has come.
pub record Locating : Type 0 where
  pub span : Span
  pub quoted : Bool
  pub state : QuoteState

module _ (t : Tables) where
  abbrev pub is_word : ℕ → Bool
  is_word c = t.is_letter c || t.is_digit c

  -- Whether the last line so far is blank.
  next_blank : Bool → ℕ → Bool
  next_blank blank char =
      if char == 10
      then true
      else if not (char == 9) && not (char == 13) && not (t.is_separator char)
      then false
      else blank

  -- `.`, `!`, `?` and their full-width forms; a full stop within a word ends nothing.
  ends_sentence : ℕ → ℕ → Bool
  ends_sentence char next =
      (char == b'.' && not (is_word next))
      || char == b'!'
      || char == b'?'
      || char == 0x3002
      || char == 0xff01
      || char == 0xff1f

  -- The end of the runes is the end of the sentence, any other error is one.
  abbrev pub at_ending : ScanError → ℕ → Result ℕ
  at_ending end_of_file last = ok last
  at_ending e last = failed e

  -- The loop of `identitySentenceEnd`: so many bytes decoded, and whether the line before is blank.
  unfoldable pub sentence_from :
      (opening_end last : ℕ) → ScanError → ℕ → Bool → List Rune → Result ℕ
  unfolding next_blank ends_sentence
  sentence_from opening_end last ending decoded blank [] = at_ending ending last
  sentence_from opening_end last ending decoded blank (r ∷ rs) =
      let before = sentence_from opening_end last ending (decoded + r.size) blank rs in
      let after =
        sentence_from opening_end last ending (decoded + r.size) (next_blank blank r.char) rs in
      if ltb decoded opening_end
      then before
      else if ((r.char == 10) && blank) || ends_sentence r.char (front rs)
      then ok r.start
      else after

  unfoldable pub sentence_end : Source → ℕ → Result ℕ
  unfolding sentence_from
  sentence_end source opening_end =
      let rs = runes source source.span.start in
      sentence_from opening_end source.span.end rs.ending 0 false rs.items

  -- An apostrophe within a word, or at its end, opens nothing.
  abbrev is_apostrophe : QuoteState → (char next : ℕ) → Bool
  is_apostrophe s char next =
      (char == 39 && t.is_letter s.previous && t.is_letter next)
      || (char == 39 && s.quote == 0 && t.is_letter s.previous && (t.is_space next || next == 0))

  abbrev opened_quote : ℕ → ℕ
  opened_quote char =
      if char == b'"' || char == 39 || char == b'`'
      then char
      else if char == 0x201c
      then 0x201d
      else if char == 0x2018
      then 0x2019
      else 0

  unfoldable pub consume : QuoteState → (char next : ℕ) → QuoteState
  consume s char next = record {
    quote =
        if is_apostrophe s char next
        then s.quote
        else if not (s.quote == 0)
        then (if char == s.quote then 0 else s.quote)
        else opened_quote char;
    previous = char;
  }

  abbrev pub take_rune : (first decoded : ℕ) → Rune → ℕ → Locating → Locating
  take_rune first decoded r next l = record {
    span = record { start = if decoded == first then r.start else l.span.start; end = r.end };
    quoted = if decoded == first then not (l.state.quote == 0) else l.quoted;
    state = consume l.state r.char next;
  }

  -- The loop over the runes of a match, from `first` to `last`.
  unfoldable pub locate_from :
      (first last decoded : ℕ) → ScanError → Locating → List Rune → Result Locating
  unfolding consume
  locate_from first last decoded ending l [] =
      if ltb decoded last then failed ending else if decoded == last then ok l else failed bad_text
  locate_from first last decoded ending l (r ∷ rs) =
      let later =
        locate_from first last (decoded + r.size) ending (take_rune first decoded r (front rs) l)
          rs in
      if ltb decoded last then later else if decoded == last then ok l else failed bad_text

  -- What follows the name decides whether it is the whole name.
  abbrev is_name_end : List Rune → Bool
  is_name_end rs =
      let next = front rs in
      not (is_word next || next == b'_' || next == b'-')
      && not (next == b'.' && is_word (front (drop 1 rs)))

  unfoldable pub locate_match : Source → ℕ → ℕ × ℕ → QuoteState → Result (Span × Bool × QuoteState)
  unfolding locate_from runes
  locate_match source start (first, last) state = do
    let rs = runes source start
    l ←
        locate_from first last 0 rs.ending
          record { span = record { start = 0; end = 0 }; quoted = false; state = state } rs.items
    ok (l.span, is_name_end (runes source l.span.end).items && not l.quoted, l.state)

  -- One round: the next qualifier before `end`, and what is emitted so far.
  unfoldable pub scan_match :
      Source
      → ℕ
      → QuoteState
      → List Span
      → Option (ℕ × ℕ)
      → (ℕ → QuoteState → List Span → Result (List Span))
      → Result (List Span)
  unfolding locate_match
  scan_match source cursor state found none later = ok found
  scan_match source cursor state found (some match) later = do
    (span, allowed, state') ← locate_match source cursor match state
    later span.end state' (if allowed then found ++ span ∷ [] else found)

  -- The loop, with as much fuel as there are bytes before `end`, and one more.
  unfoldable pub scan_from :
      ℕ → Source → (end cursor : ℕ) → QuoteState → List Span → Result (List Span)
  unfolding scan_match
  scan_from zero source end cursor state found = failed out_of_fuel
  scan_from (suc fuel) source end cursor state found =
      let sentence : Source = record source { span = record (source.span) { end = end } } in
      let rest =
        scan_match source cursor state found (t.qualifier (chars (runes sentence cursor).items))
          (scan_from fuel source end) in
      if ltb cursor end then rest else ok found

  abbrev pub scan_opening : Source → Option (ℕ × ℕ) → Result (List Span)
  scan_opening source none = ok []
  scan_opening source (some match) = do
    end ← sentence_end source match.1
    scan_from (end - source.span.start + 1) source end source.span.start
        record { quote = 0; previous = 0 } []

  -- The spans that `scanIdentityText` emits.
  unfoldable pub scan_text : Source → Result (List Span)
  unfolding scan_from
  scan_text source = scan_opening source (t.opening (chars (runes source source.span.start).items))
