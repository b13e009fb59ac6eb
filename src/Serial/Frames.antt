-- ===== src/Serial/Frames.antt =====
-- How the listener of infracstructure/serial_manager.py cuts what it reads does not depend on how the
-- line delivers it.
use Prim.Native.Char.{Char, code}
use Prim.Native.String.append
use text.Mathlib.TextLemmas as Text
use smart_locker_iot.Prelude.{
  String, ◌<>◌, false, Option, none, some, List, [], ◌∷◌, ◌++◌, nat_beq, Bool-cases, Option-cases,
  ◌≡◌, ◌≢◌, refl, ap, ◌∙◌, sym, arith, inl, inr, if◌then◌else◌, string_eq, ◌==◌,
}
use smart_locker_iot.Prelude.Texts.{split, on_head, join}
use smart_locker_iot.Python.{Fields, Result, ok, raise, Fault, Result-cases}
use smart_locker_iot.Python.Exec.{◌>>=◌, ◌>>◌}
use smart_locker_iot.Serial.{Link}
use smart_locker_iot.Serial.Listener.{
  lstrip, rstrip, without_nul, has_char, pop, receive, handle_incoming_json, handle_line,
  handle_lines, Listener, listen, listen_all, from_brace,
}

-- A character in front of the first of the lines, or of the rest.
abbrev on_first : Char → List String × String → List String × String
on_first c ([], rest) = ([], String.◌∷◌ c rest)
on_first c (line ∷ lines, rest) = (String.◌∷◌ c line ∷ lines, rest)

abbrev above : List String × String → List String × String
above (lines, rest) = ("" ∷ lines, rest)

abbrev after : List String → List String × String → List String × String
after lines (more, rest) = (lines ++ more, rest)

-- The lines that end with a newline, and what stands after the last one.
unfoldable frames : String → List String × String
frames String.[] = ([], "")
frames (String.◌∷◌ c s) =
    let rest = frames s in if nat_beq (code c) b'\n' then above rest else on_first c rest

pop-on_head :
    (c : Char) (words : List String)
    → pop (on_head (λ w. String.◌∷◌ c w) words) ≡ on_first c (pop words)
unfolding pop
pop-on_head c [] = refl
pop-on_head c (w ∷ []) = refl
pop-on_head c (w ∷ v ∷ ws) = refl

above-pop-on_head :
    (c : Char) (words : List String)
    → pop ("" ∷ on_head (λ w. String.◌∷◌ c w) words)
      ≡ above (pop (on_head (λ w. String.◌∷◌ c w) words))
unfolding pop
above-pop-on_head c [] = refl
above-pop-on_head c (w ∷ ws) = refl

pop-newline : (s : String) → pop ("" ∷ split b'\n' s) ≡ above (pop (split b'\n' s))
unfolding split pop
pop-newline String.[] = refl
pop-newline (String.◌∷◌ c s) = elim (Bool-cases (nat_beq (code c) b'\n')) [
  | inl e ↦ rw e refl
  | inr e ↦ rw e (above-pop-on_head c (split b'\n' s))
]

pop-split : (s : String) → pop (split b'\n' s) ≡ frames s
unfolding split pop frames
pop-split String.[] = refl
pop-split (String.◌∷◌ c s) = elim (Bool-cases (nat_beq (code c) b'\n')) [
  | inl e ↦ rw e (pop-newline s ∙ ap above (pop-split s))
  | inr e ↦ rw e (pop-on_head c (split b'\n' s) ∙ ap (on_first c) (pop-split s))
]

frames-none : (s : String) → has_char b'\n' s ≡ false → frames s ≡ ([], s)
unfolding has_char frames
frames-none String.[] h = refl
frames-none (String.◌∷◌ c s) h = elim (Bool-cases (nat_beq (code c) b'\n')) [
  | inl e ↦ ground arith
  | inr e ↦ rw (e, frames-none s (ground arith)) refl
]

receive_lem : (chunk buffer : String) → receive chunk buffer ≡ frames (buffer <> chunk)
unfolding receive
receive_lem chunk buffer = elim (Bool-cases (has_char b'\n' (buffer <> chunk))) [
  | inl e ↦ rw e (pop-split (buffer <> chunk))
  | inr e ↦ rw e (sym (frames-none (buffer <> chunk) e))
]

frames-on_first :
    (c : Char) (p : List String × String) (b : String)
    → nat_beq (code c) b'\n' ≡ false
    → on_first c (after p.0 (frames (p.1 <> b)))
      ≡ after (on_first c p).0 (frames ((on_first c p).1 <> b))
unfolding frames
frames-on_first c ([], rest) b e = rw (append.cons, e) refl
frames-on_first c (line ∷ lines, rest) b e = refl

frames-append : (a b : String) → frames (a <> b) ≡ after (frames a).0 (frames ((frames a).1 <> b))
unfolding frames
frames-append String.[] b = refl
frames-append (String.◌∷◌ c a) b = elim (Bool-cases (nat_beq (code c) b'\n')) [
  | inl e ↦ rw (append.cons, e, frames-append a b) refl
  | inr e ↦ rw (append.cons, e, frames-append a b) (frames-on_first c (frames a) b e)
]

module _ (loads : String → Result (Option Fields))
    (loads-ok : (s : String) (e : Fault) → loads s ≢ raise e) where
  handle_incoming_json_ok :
      (text : String) (l : Link) → (handle_incoming_json loads text l).0 ≡ ok tt
  unfolding handle_incoming_json ◌>>=◌
  handle_incoming_json_ok text l = elim (Result-cases (loads text)) [
    | inl (none, e) ↦ rw e refl
    | inl (some message, e) ↦ rw e refl
    | inr (x, e) ↦ absurd (loads-ok text x e)
  ]

  handle_line_ok : (line : String) (l : Link) → (handle_line loads line l).0 ≡ ok tt
  unfolding handle_line
  handle_line_ok line l =
      let text = without_nul (rstrip (lstrip line)) in
      elim (Bool-cases (text == "")) [
        | inl e ↦ rw e refl
        | inr e ↦ rw e (elim (Option-cases (from_brace text)) [
          | inl n ↦ rw n refl
          | inr (json, j) ↦ rw j (handle_incoming_json_ok json l)
        ])
      ]

  handle_lines-append :
      (a b : List String) (l : Link)
      → (handle_lines loads (a ++ b) l).1 ≡ (handle_lines loads b (handle_lines loads a l).1).1
  unfolding handle_lines ◌>>=◌ ◌>>◌
  handle_lines-append [] b l = refl
  handle_lines-append (line ∷ lines) b l = rw handle_line_ok (handle_lines-append lines b _)

  abbrev finish : List String × String → Link → Listener
  finish (lines, rest) link = record { buffer = rest; link = (handle_lines loads lines link).1 }

  listen-frames :
      (chunk : String) (s : Listener)
      → listen loads chunk s ≡ finish (frames (s.buffer <> chunk)) s.link
  unfolding listen
  listen-frames chunk s = ap (λ p. finish p s.link) (receive_lem chunk s.buffer)

  pub listen-listen :
      (a b : String) (s : Listener) → listen loads b (listen loads a s) ≡ listen loads (a <> b) s
  listen-listen a b s =
      rw
        (
          listen-frames b (listen loads a s),
          listen-frames a s,
          listen-frames (a <> b) s,
          ← Text.append_assoc s.buffer a b,
          frames-append (s.buffer <> a) b,
          handle_lines-append,
        )
        refl

  -- However the text comes off the line, the listener handles the same messages and keeps the same
  -- rest of it: reading it in chunks is reading it at once. No text makes `json.loads` raise
  -- anything else than the JSONDecodeError.
  pub listen_all_lem :
      (chunk : String) (chunks : List String) (s : Listener)
      → listen_all loads (chunk ∷ chunks) s ≡ listen loads (join "" (chunk ∷ chunks)) s
  unfolding listen_all join
  listen_all_lem chunk [] s = refl
  listen_all_lem chunk (next ∷ chunks) s =
      rw (listen_all_lem next chunks (listen loads chunk s), listen-listen, Text.nil-append) refl
