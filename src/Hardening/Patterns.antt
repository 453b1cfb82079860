-- ===== src/Hardening/Patterns.antt =====
-- The two regular expressions of blocked words: models _EXFIL_PATTERNS of
-- backend/app/rewriters/hardening.py and _BLOCKED_PATTERN of backend/app/rewriters/sql_rewriter.py.
-- Both are `\b(…|…)\b` without regard to case.
use metasight.Prelude.{
  Bool, List, Option, String, Text, [], any, codes, false, if◌then◌else◌, is_space, leb, lower_code,
  nat_eq, none, not, some, string_eq, text_eq, ℕ, ◌&&◌, ◌++◌, ◌==◌, ◌||◌, ◌∷◌,
}

pub data Piece : Type 0 where
  word : String → Piece
  spaces : Piece
  any_spaces : Piece
  one_space : Piece
  word_char : Piece
  one_of : List String → Piece
  option_of : String → Piece

-- `\w`, among ASCII.
unfoldable pub is_word_code : ℕ → Bool
is_word_code c =
    leb b'a' c && leb c b'z' || leb b'A' c && leb c b'Z' || leb b'0' c && leb c b'9' || c == b'_'

-- A place in a text: the character before it and the text after it.
pub record Place : Type 0 where
  pub before : Option ℕ
  pub after : Text

abbrev word_at : Option ℕ → Bool
word_at none = false
word_at (some c) = is_word_code c

abbrev head_of : Text → Option ℕ
head_of [] = none
head_of (c ∷ s) = some c

-- `\b`.
unfoldable pub is_boundary : Place → Bool
unfolding is_word_code
is_boundary p =
    if word_at p.before then not (word_at (head_of p.after)) else word_at (head_of p.after)

-- The places after a text that is matched without regard to case.
unfoldable pub after_word : Text → Place → List Place
unfolding lower_code
after_word [] p = p ∷ []
after_word (w ∷ ws) p = elim p.after [
  | [] ↦ []
  | c ∷ s ↦
      if lower_code c == lower_code w
      then after_word ws (record { before = some c; after = s })
      else []
]

-- The places after some white space, the shortest first.
unfoldable pub after_spaces : Text → List Place
unfolding is_space
after_spaces [] = []
after_spaces (c ∷ s) =
    let rest = after_spaces s in
    if is_space c then record { before = some c; after = s } ∷ rest else []

unfoldable pub after_one : (ℕ → Bool) → Text → List Place
after_one p [] = []
after_one p (c ∷ s) = if p c then record { before = some c; after = s } ∷ [] else []

unfoldable pub after_words : List String → Place → List Place
unfolding after_word
after_words [] p = []
after_words (w ∷ ws) p = after_word (codes w) p ++ after_words ws p

unfoldable pub after_piece : Piece → Place → List Place
unfolding after_word after_spaces after_one after_words is_space is_word_code
after_piece (word w) p = after_word (codes w) p
after_piece spaces p = after_spaces p.after
after_piece any_spaces p = p ∷ after_spaces p.after
after_piece one_space p = after_one is_space p.after
after_piece word_char p = after_one is_word_code p.after
after_piece (one_of ws) p = after_words ws p
after_piece (option_of w) p = p ∷ after_word (codes w) p

unfoldable pub after_piece_all : Piece → List Place → List Place
unfolding after_piece
after_piece_all piece [] = []
after_piece_all piece (p ∷ places) = after_piece piece p ++ after_piece_all piece places

unfoldable pub after_pieces : List Piece → List Place → List Place
unfolding after_piece_all
after_pieces [] places = places
after_pieces (piece ∷ pieces) places = after_pieces pieces (after_piece_all piece places)

unfoldable pub some_alternative : List (List Piece) → Place → Bool
unfolding after_pieces is_boundary
some_alternative [] p = false
some_alternative (pieces ∷ others) p =
    any is_boundary (after_pieces pieces (p ∷ [])) || some_alternative others p

-- `pattern.search(sql) is not None`.
unfoldable pub search_from : List (List Piece) → Option ℕ → Text → Bool
unfolding some_alternative is_boundary
search_from pattern_ before [] = false
search_from pattern_ before (c ∷ s) =
    let here : Place = record { before = before; after = c ∷ s } in
    let later = search_from pattern_ (some c) s in
    is_boundary here && some_alternative pattern_ here || later

unfoldable pub found : List (List Piece) → Text → Bool
unfolding search_from
found pattern_ sql = search_from pattern_ none sql

abbrev pub blocked_pattern : List (List Piece)
blocked_pattern =
    (word "INSERT" ∷ spaces ∷ word "INTO" ∷ [])
    ∷ (word "UPDATE" ∷ spaces ∷ word_char ∷ [])
    ∷ (word "DELETE" ∷ spaces ∷ word "FROM" ∷ [])
    ∷ (word "CREATE"
        ∷ spaces
        ∷ one_of
            ("TABLE" ∷ "FUNCTION" ∷ "VIEW" ∷ "INDEX" ∷ "SCHEMA" ∷ "DATABASE" ∷ "ROLE" ∷ "USER" ∷ [])
        ∷ [])
    ∷ (word "DROP"
        ∷ spaces
        ∷ one_of ("TABLE" ∷ "VIEW" ∷ "FUNCTION" ∷ "SCHEMA" ∷ "DATABASE" ∷ "INDEX" ∷ [])
        ∷ [])
    ∷ (word "ALTER" ∷ spaces ∷ one_of ("TABLE" ∷ "COLUMN" ∷ "SCHEMA" ∷ "DATABASE" ∷ []) ∷ [])
    ∷ (word "TRUNCATE" ∷ [])
    ∷ (word "GRANT" ∷ [])
    ∷ (word "REVOKE" ∷ [])
    ∷ (word "COPY" ∷ one_space ∷ [])
    ∷ (word "DO" ∷ any_spaces ∷ word "$" ∷ [])
    ∷ (word "EXEC" ∷ option_of "UTE" ∷ one_space ∷ [])
    ∷ (word "xp_cmdshell" ∷ [])
    ∷ (word "pg_read_file" ∷ [])
    ∷ (word "pg_write_file" ∷ [])
    ∷ (word "lo_import" ∷ [])
    ∷ (word "lo_export" ∷ [])
    ∷ []

abbrev pub exfil_patterns : List (List Piece)
exfil_patterns =
    (word "INTO" ∷ spaces ∷ one_of ("OUTFILE" ∷ "DUMPFILE" ∷ []) ∷ [])
    ∷ (word "BULK" ∷ spaces ∷ word "INSERT" ∷ [])
    ∷ (word "OPENROWSET" ∷ [])
    ∷ (word "UTL_FILE" ∷ any_spaces ∷ word "." ∷ [])
    ∷ (word "DBMS_PIPE" ∷ [])
    ∷ (word "pg_read_binary_file" ∷ [])
    ∷ (word "pg_ls_dir" ∷ [])
    ∷ (word "pg_stat_file" ∷ [])
    ∷ (word "dblink" ∷ [])
    ∷ []
