-- ===== src/Linker/Args/ResponseFiles.antt =====
-- `@file` arguments.
use libarena_rs.Common.{
  ◌≡◌, refl, none, List, [], ◌∷◌, ◌++◌, Text, codes, strip_prefix, All, list_file,
  split_whitespace-list_file, IsField, is_whitespace,
}
use libarena_rs.Linker.Args.{ok, Reading, text, expand}

abbrev at_sign : Text
at_sign = codes "@"

-- The argument names no response file.
abbrev pub IsDirect : Text → Type 0
IsDirect a = strip_prefix at_sign a ≡ none

pub expand_direct :
    (read : Text → Reading) (args : List Text) → All IsDirect args → expand read args ≡ ok args
unfolding expand
expand_direct read [] h = refl
expand_direct read (a ∷ args) (e, h) = rw (expand, e, expand_direct read args h)

expand_file :
    (read : Text → Reading) (f : Text) (ws : List Text) (args more : List Text)
    → read f ≡ text (list_file ws)
    → All (IsField is_whitespace) ws
    → expand read args ≡ ok more
    → expand read ((at_sign ++ f) ∷ args) ≡ ok (ws ++ more)
unfolding expand
expand_file read f ws args more found words rest =
    rw (expand, found, rest, split_whitespace-list_file ws words)

-- Where every other argument is direct, a response file that holds words one to a line, none of them
-- empty or with white space in it, is expanded to these words in its place. They may begin with `@`,
-- and are not expanded again.
pub parse_args_response_file :
    (read : Text → Reading) (before after ws : List Text) (f : Text)
    → read f ≡ text (list_file ws)
    → All (IsField is_whitespace) ws
    → All IsDirect before
    → All IsDirect after
    → expand read (before ++ (at_sign ++ f) ∷ after) ≡ ok (before ++ (ws ++ after))
unfolding expand
parse_args_response_file read [] after ws f found words _ direct =
    expand_file read f ws after after found words (expand_direct read after direct)
parse_args_response_file read (b ∷ before) after ws f found words (e, h) direct =
    rw (expand, e, parse_args_response_file read before after ws f found words h direct)
