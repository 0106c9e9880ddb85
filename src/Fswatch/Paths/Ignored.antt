-- ===== src/Fswatch/Paths/Ignored.antt =====
-- Which paths `shouldIgnore` of internal/fswatch/fswatch.go skips.
use googlysync.Prelude.{
  ◌-◌, true, false, ◌≡◌, refl, ◌↔◌, inl, inr, [], ◌∷◌, ◌++◌, arith, ◌==◌, length, length-append,
  drop, drop-append_length, take, take-append-drop, sym, ◌∙◌, ap, any, any_iff, Memᴰ, Str, lit,
  is_empty, str_eq, str_eq_iff, str_eq_refl, All, Bool-cases,
}
use googlysync.Config.{Config}
use googlysync.Fswatch.Paths.{
  Filepath, slash, strip, has_slash, last_element, base, has_suffix, suffixes, is_own,
  should_ignore,
}

-- no byte of the text is a separator
abbrev pub NoSlash : Str → Type 0
NoSlash s = All (λ c. (c == slash) ≡ false) s

has_slash_no : (n : Str) → NoSlash n → has_slash n ≡ false
unfolding any
has_slash_no [] h = refl
has_slash_no (c ∷ n) h = ground (arith, has_slash_no n h.1)

has_slash-append : (d n : Str) → has_slash (d ++ slash ∷ n) ≡ true
unfolding any
has_slash-append [] n = refl
has_slash-append (c ∷ d) n = ground (arith, has_slash-append d n)

strip_no : (n : Str) → NoSlash n → strip n ≡ n
unfolding strip
strip_no [] h = refl
strip_no (c ∷ n) h = ground (arith, strip_no n h.1)

is_empty-append : (d n : Str) → is_empty n ≡ false → is_empty (d ++ n) ≡ false
is_empty-append [] n h = h
is_empty-append (c ∷ d) n h = refl

strip-append : (d n : Str) → is_empty (strip n) ≡ false → strip (d ++ n) ≡ d ++ strip n
unfolding strip
strip-append [] n h = refl
strip-append (c ∷ d) n h = ground (arith, strip-append d n h, is_empty-append d (strip n) h)

last_element_no : (n : Str) → NoSlash n → last_element n ≡ n
unfolding last_element
last_element_no [] h = refl
last_element_no (c ∷ n) h = ground (arith, has_slash_no n h.1)

last_element-append : (d n : Str) → NoSlash n → last_element (d ++ slash ∷ n) ≡ n
unfolding last_element
last_element-append [] n h = ground (arith, has_slash_no n h)
last_element-append (c ∷ d) n h = ground (arith, has_slash-append d n, last_element-append d n h)

strip-slash : (n : Str) → NoSlash n → is_empty n ≡ false → strip (slash ∷ n) ≡ slash ∷ n
unfolding strip
strip-slash n h e = ground (arith, strip_no n h)

strip_join : (d n : Str) → NoSlash n → is_empty n ≡ false → strip (d ++ slash ∷ n) ≡ d ++ slash ∷ n
strip_join d n h e =
    strip-append d (slash ∷ n) (rw (strip-slash n h e) refl) ∙ ap (◌++◌ d) (strip-slash n h e)

pub base_join : (d n : Str) → NoSlash n → is_empty n ≡ false → base (d ++ slash ∷ n) ≡ n
unfolding base
base_join d n h e =
    rw (strip_join d n h e, last_element-append d n h, is_empty-append d (slash ∷ n) refl, e) refl

abbrev pub HasSuffix : Str → Str → Type 0
HasSuffix b suf = (x : Str) × (b ≡ x ++ suf)

has_suffix_sound : (b suf : Str) → has_suffix b suf ≡ true → HasSuffix b suf
unfolding has_suffix
has_suffix_sound b suf h =
    let n = length b - length suf in
    (
      take n b,
      sym (take-append-drop n b)
          ∙ ap (◌++◌ (take n b)) ((str_eq_iff (drop n b) suf).0 (ground arith)),
    )

has_suffix-append : (x suf : Str) → has_suffix (x ++ suf) suf ≡ true
unfolding has_suffix
has_suffix-append x suf =
    let n : length (x ++ suf) - length suf ≡ length x = omega (arith, length-append x suf) in
    rw (n, drop-append_length x suf, str_eq_refl) (ground (arith, length-append x suf))

is_own_iff : (p path : Str) → (is_own p path ≡ true) ↔ ((is_empty p ≡ false) × (path ≡ p))
is_own_iff p path = (ground (arith, str_eq_iff path p), λ h. ground (arith, str_eq_iff path p))

-- The reasons to skip a path.
pub data IsIgnored (fp : Filepath) (cfg : Config) (path : Str) : Type 0 where
  here : base path ≡ lit "." → IsIgnored fp cfg path
  parent : base path ≡ lit ".." → IsIgnored fp cfg path
  own_log : is_empty cfg.log_file_path ≡ false → path ≡ cfg.log_file_path → IsIgnored fp cfg path
  own_database :
      is_empty cfg.database_path ≡ false → path ≡ cfg.database_path → IsIgnored fp cfg path
  own_socket : is_empty cfg.socket_path ≡ false → path ≡ cfg.socket_path → IsIgnored fp cfg path
  pattern_match :
      (pat : Str)
      → Memᴰ pat cfg.ignore_patterns
      → fp.glob pat (base path) ≡ true
      → IsIgnored fp cfg path
  temporary : (suf : Str) → Memᴰ suf suffixes → HasSuffix (base path) suf → IsIgnored fp cfg path

module _ (fp : Filepath) (cfg : Config) (path : Str) where
  should_ignore_sound : should_ignore fp cfg path ≡ true → IsIgnored fp cfg path
  unfolding should_ignore
  should_ignore_sound h = elim (Bool-cases (str_eq (base path) (lit "."))) [
    | inl e ↦ here ((str_eq_iff (base path) (lit ".")).0 e)
    | inr n₁ ↦ elim (Bool-cases (str_eq (base path) (lit ".."))) [
      | inl e ↦ parent ((str_eq_iff (base path) (lit "..")).0 e)
      | inr n₂ ↦ elim (Bool-cases (is_own cfg.log_file_path path)) [
        | inl e ↦ let (p, q) = (is_own_iff cfg.log_file_path path).0 e in own_log p q
        | inr n₃ ↦ elim (Bool-cases (is_own cfg.database_path path)) [
          | inl e ↦ let (p, q) = (is_own_iff cfg.database_path path).0 e in own_database p q
          | inr n₄ ↦ elim (Bool-cases (is_own cfg.socket_path path)) [
            | inl e ↦ let (p, q) = (is_own_iff cfg.socket_path path).0 e in own_socket p q
            | inr n₅ ↦
                elim (Bool-cases (any (λ pat. fp.glob pat (base path)) cfg.ignore_patterns)) [
                  | inl e ↦
                      let (pat, m, q) =
                        (any_iff (λ pat. fp.glob pat (base path)) cfg.ignore_patterns).0 e in
                      pattern_match pat m q
                  | inr n₆ ↦
                      let (suf, m, q) =
                        (any_iff (has_suffix (base path)) suffixes).0 (ground arith) in
                      temporary suf m (has_suffix_sound (base path) suf q)
                ]
          ]
        ]
      ]
    ]
  ]

  should_ignore_complete : IsIgnored fp cfg path → should_ignore fp cfg path ≡ true
  unfolding should_ignore
  should_ignore_complete (here e) = ground (arith, str_eq_iff (base path) (lit "."))
  should_ignore_complete (parent e) = ground (arith, str_eq_iff (base path) (lit ".."))
  should_ignore_complete (own_log n e) = ground (arith, is_own_iff cfg.log_file_path path)
  should_ignore_complete (own_database n e) = ground (arith, is_own_iff cfg.database_path path)
  should_ignore_complete (own_socket n e) = ground (arith, is_own_iff cfg.socket_path path)
  should_ignore_complete (pattern_match pat m q) =
      ground (arith, (any_iff (λ pat. fp.glob pat (base path)) cfg.ignore_patterns).1 (pat, m, q))
  should_ignore_complete (temporary suf m (x, e)) = ground (
    arith,
    (any_iff (has_suffix (base path)) suffixes).1 (suf, m, rw e (has_suffix-append x suf)),
  )

  -- A path is skipped exactly when it names the directory itself or its parent, is the daemon's own
  -- log file, database or socket, has a last element that matches an ignore pattern, or has one
  -- that ends like a temporary file.
  pub should_ignore_iff : (should_ignore fp cfg path ≡ true) ↔ IsIgnored fp cfg path
  should_ignore_iff = (should_ignore_sound, should_ignore_complete)

  -- So below any directory, whatever the configuration, a file whose name ends like a temporary
  -- file is skipped.
  pub should_ignore-temporary :
      (dir name suf : Str)
      → path ≡ dir ++ slash ∷ name
      → NoSlash name
      → is_empty name ≡ false
      → Memᴰ suf suffixes
      → HasSuffix name suf
      → should_ignore fp cfg path ≡ true
  should_ignore-temporary dir name suf p s e m (x, q) =
      should_ignore_complete (temporary suf m (x, ap base p ∙ base_join dir name s e ∙ q))
