-- ===== src/Lexer/Comments.antt =====
-- crates/lexer/src/lib.rs: `skip_trivia` on every source.
use maka.Base.{
  ℕ, zero, suc, ◌<◌, ◌≤◌, Bool, true, false, not, [], ◌∷◌, ◌++◌, ◌≡◌, refl, ap, ◌⊎◌, inl, inr,
  Bytes, length, length-append, all, ◌==◌, arith, Bool-cases,
}
use maka.Lexer.Blocks.{
  BlockEnds, closed, opens, closes, inside, LineEnds, Trivia, over, blank, line, block, TriviaOpen,
  unclosed, Inside, Unclosed, Unclosed-back, Unclosed-Inside, lexer, skip_block-Consumes,
  skip_block-Ends, skip_block-Stays,
}
use maka.Lexer.Cursor.{Cursor, Lexer, step, skip_while, peek}
use maka.Lexer.Position.{
  Consumes, Consumes-refl, Consumes-trans, Consumes-cons, Consumes-end, Consumes-pos, Skips,
  skip_while-Skips,
}
use maka.Lexer.Trivia.{
  is_blank, opens_line, opens_block, skip_block, close_block, block_comment, skip_trivia_loop,
  skip_trivia,
}
use maka.Lexer.Reads.{Reads, returns, fails, Reads-bind, Reads-mono, Reads-if, Reads-Within}
use maka.Lexer.Within.{Within, Within-mono}

record BlockRead (c c' : ℕ) (cs : Bytes) (at : Cursor) (l : Lexer) : Type 0 where
  consumes : Consumes (lexer (c ∷ c' ∷ cs) at) l
  ends : BlockEnds l.rest 1 cs

close_block-Reads :
    (d : ℕ) (l from : Lexer)
    → Consumes from l
    → ((n : ℕ) → d ≡ suc n → TriviaOpen from.rest × (l.rest ≡ []))
    → Reads (λ l'. (l' ≡ l) × (d ≡ 0)) (Unclosed from) (close_block (d, l))
unfolding close_block
close_block-Reads zero l from p k = returns (refl, refl)
close_block-Reads (suc d) l from p k =
    let (comment, e) = k d refl in
    fails (record { end = l; consumes = p; at_end = e; error_is = refl; comment = comment })

block_comment-Reads :
    (c c' : ℕ) (cs : Bytes) (at : Cursor)
    → opens_block (c ∷ c' ∷ cs) ≡ true
    → Reads
        (BlockRead c c' cs at)
        (Unclosed (lexer (c ∷ c' ∷ cs) at))
        (block_comment (c ∷ c' ∷ cs) at)
unfolding block_comment
block_comment-Reads c c' cs at o =
    let r = skip_block 1 cs (step c' (step c at)) in
    let p = Consumes-cons (Consumes-cons (skip_block-Consumes 1 cs (step c' (step c at)))) in
    let stays = skip_block-Stays 1 cs (step c' (step c at)) in
    Reads-mono (close_block-Reads r.0 r.1 _ p (λ n h. let (b, e) = stays n h in (unclosed o b, e)))
      (λ l' (e, z). rw e (record { consumes = p; ends = skip_block-Ends 1 cs _ z })) (λ e h. h)

pub record TriviaRead (l l' : Lexer) : Type 0 where
  pub consumes : Consumes l l'
  pub trivia : Trivia l'.rest l.rest

Trivia-blanks :
    {rest : Bytes} (bs mid : Bytes)
    → all is_blank bs ≡ true
    → Trivia rest mid
    → Trivia rest (bs ++ mid)
Trivia-blanks [] mid h t = t
Trivia-blanks (c ∷ cs) mid h t = elim (Bool-cases (is_blank c)) [
  | inl e ↦ blank e (Trivia-blanks cs mid (rw e at h) t)
  | inr e ↦ absurd (ground arith)
]

Open-blanks : (bs mid : Bytes) → all is_blank bs ≡ true → TriviaOpen mid → TriviaOpen (bs ++ mid)
Open-blanks [] mid h t = t
Open-blanks (c ∷ cs) mid h t = elim (Bool-cases (is_blank c)) [
  | inl e ↦ blank e (Open-blanks cs mid (rw e at h) t)
  | inr e ↦ absurd (ground arith)
]

line-LineEnds : {l l' : Lexer} → Skips (λ c. not (c == b'\n')) l l' → LineEnds l'.rest l.rest
line-LineEnds s = record {
  body = s.consumes.bytes;
  splits = s.consumes.splits;
  no_newline = s.passed;
  stopped = s.stopped;
}

line_shorter :
    (body rest bs : Bytes)
    → bs ≡ body ++ rest
    → (rest ≡ []) ⊎ (not (peek rest == b'\n') ≡ false)
    → opens_line bs ≡ true
    → length rest < length bs
line_shorter [] rest bs e (inl n) o = absurd (ground arith)
line_shorter [] rest bs e (inr n) o = absurd (ground arith)
line_shorter (c ∷ cs) rest bs e _ o = omega (arith, ap length e, length-append cs rest)

BlockEnds-length :
    {rest : Bytes} {d : ℕ} {bs : Bytes} → BlockEnds rest d bs → length rest ≤ length bs
BlockEnds-length (closed e) = omega (arith, ap length e)
BlockEnds-length (opens _ b) = omega (arith, BlockEnds-length b)
BlockEnds-length (closes _ b) = omega (arith, BlockEnds-length b)
BlockEnds-length (inside _ _ b) = omega (arith, BlockEnds-length b)

-- A block comment that was read: less is left, and what follows it as trivia follows here.
record BlockStep (bs : Bytes) (at : Cursor) (l : Lexer) : Type 0 where
  consumes : Consumes (lexer bs at) l
  shorter : length l.rest < length bs
  extends : {rest : Bytes} → Trivia rest l.rest → Trivia rest bs
  opening : TriviaOpen l.rest → TriviaOpen bs

block_comment-Step :
    (bs : Bytes) (at : Cursor)
    → opens_block bs ≡ true
    → Reads (BlockStep bs at) (Unclosed (lexer bs at)) (block_comment bs at)
block_comment-Step [] at o = absurd (ground arith)
block_comment-Step (c ∷ []) at o = absurd (ground arith)
block_comment-Step (c ∷ c' ∷ cs) at o =
    Reads-mono (block_comment-Reads c c' cs at o)
      (λ l r. record {
        consumes = r.consumes;
        shorter = omega (arith, BlockEnds-length r.ends);
        extends = λ t. block o r.ends t;
        opening = λ t. block o r.ends t;
      })
      (λ e h. h)

-- The blanks that a round begins with.
after_blanks : {l m l' : Lexer} → Skips is_blank l m → TriviaRead m l' → TriviaRead l l'
after_blanks {l} {m} {l'} s r = record {
  consumes = Consumes-trans s.consumes r.consumes;
  trivia = rw s.consumes.splits (Trivia-blanks s.consumes.bytes m.rest s.passed r.trivia);
}

open_after_blanks : {l m : Lexer} → Skips is_blank l m → TriviaOpen m.rest → TriviaOpen l.rest
open_after_blanks {l} {m} s t =
    rw s.consumes.splits (Open-blanks s.consumes.bytes m.rest s.passed t)

Skips-shorter : {test : ℕ → Bool} {l m : Lexer} → Skips test l m → length m.rest ≤ length l.rest
Skips-shorter s = omega (arith, Consumes-end s.consumes, Consumes-pos s.consumes)

-- One round: the blanks, then a comment and the other rounds, or the end.
skip_trivia_loop-Reads :
    (f : ℕ) (l : Lexer)
    → length l.rest < f
    → Reads (TriviaRead l) (Unclosed l) (skip_trivia_loop f l)
unfolding skip_trivia_loop
skip_trivia_loop-Reads zero l h = absurd (omega arith)
skip_trivia_loop-Reads (suc f) l h =
    let l1 = skip_while is_blank l.rest l.cursor in
    let s = skip_while-Skips is_blank l.rest l.cursor in
    let l2 = skip_while (λ c. not (c == b'\n')) l1.rest l1.cursor in
    let t = skip_while-Skips (λ c. not (c == b'\n')) l1.rest l1.cursor in
    Reads-if (opens_line l1.rest)
      (λ o.
        let ends = line-LineEnds t in
        let less = line_shorter ends.body l2.rest l1.rest ends.splits ends.stopped o in
        Reads-mono (skip_trivia_loop-Reads f l2 (omega (arith, less, Skips-shorter s)))
          (λ l' r. after_blanks s (record {
            consumes = Consumes-trans t.consumes r.consumes;
            trivia = line o ends r.trivia;
          }))
          (Unclosed-back (Consumes-trans s.consumes t.consumes)
            (λ q. open_after_blanks s (line o ends q))))
      (λ o.
        Reads-if (opens_block l1.rest)
          (λ b.
            Reads-bind
              (Reads-mono (block_comment-Step l1.rest l1.cursor b) (λ l' r. r)
                (Unclosed-back s.consumes (open_after_blanks s)))
              (λ l3 r.
                Reads-mono (skip_trivia_loop-Reads f l3 (omega (arith, r.shorter, Skips-shorter s)))
                  (λ l' q. after_blanks s (record {
                    consumes = Consumes-trans r.consumes q.consumes;
                    trivia = r.extends q.trivia;
                  }))
                  (Unclosed-back (Consumes-trans s.consumes r.consumes)
                    (λ q. open_after_blanks s (r.opening q)))))
          (λ b. returns (
            after_blanks s
              (record { consumes = Consumes-refl _; trivia = over refl s.stopped o b }))))

-- `skip_trivia` ends without a panic. It gives the lexer behind the blanks and comments, where a token
-- begins or the source ends; or, where a block comment with the comments nested in it is not closed,
-- the error for an unterminated comment with the span of the end of the source.
pub skip_trivia-Reads : (l : Lexer) → Reads (TriviaRead l) (Unclosed l) (skip_trivia l)
unfolding skip_trivia
skip_trivia-Reads l = skip_trivia_loop-Reads (suc (length l.rest)) l (omega arith)

-- The weaker form that the other parts of the lexer compose with.
pub skip_trivia-Within : (l : Lexer) → Within (TriviaRead l) (Inside l) (skip_trivia l)
skip_trivia-Within l = Within-mono (Reads-Within (skip_trivia-Reads l)) (λ l' r. r) Unclosed-Inside
