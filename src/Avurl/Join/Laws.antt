-- ===== src/Avurl/Join/Laws.antt =====
-- Splitting a URL and joining the parts: pkg/avurl/av_url_split.go and av_url_join.go.
use zmux_server.Base.{
  ℕ, zero, suc, ◌-◌, ◌≡◌, ◌⊎◌, refl, ap, ◌∙◌, true, false, [], ◌∷◌, ◌++◌, some, Bytes, ◌==◌, nat_eq,
  nat_beq_iff, if◌then◌else◌, length, take, drop, arith, Option-cases, Bool-cases, append_assoc,
  append-nil, take-append-drop, replicate, inl, inr, codes,
}
use zmux_server.Avurl.Split.{
  Parts, no_parts, index_byte, index_any, contains, strcspn, Userinfo, userinfo_loop,
  split_userinfo, HostPort, split_brackets, split_colon, split_host, split_authority, split_path,
  second_slash, first_slash, avurl_split, at_byte, is_empty,
}
use zmux_server.Avurl.Join.{at_sign, host_with_brks, colon, avurl_join}

-- A byte that was found splits the text.
pub index_byte-splits :
    (c : ℕ) (s : Bytes) (i : ℕ) → index_byte c s ≡ some i → take i s ++ (c ∷ drop (suc i) s) ≡ s
unfolding index_byte
index_byte-splits c [] i h = cc
index_byte-splits c (x ∷ s) i h = elim (Bool-cases (x == c)) [
  | inl here ↦ ground (arith, nat_beq_iff x c)
  | inr there ↦ elim (Option-cases (index_byte c s)) [
    | inl e ↦ ground arith
    | inr (j, e) ↦ ground (arith, index_byte-splits c s j e)
  ]
]

abbrev userinfo_text : Userinfo → Bytes
userinfo_text u = u.info ++ (at_sign u.found ++ u.rest)

-- Each round moves a piece of `rest` into `info`.
userinfo_loop-text :
    (fuel : ℕ) (taken : Bytes) (u : Userinfo)
    → u.info ++ at_sign u.found ≡ taken
    → userinfo_text (userinfo_loop fuel taken u) ≡ taken ++ u.rest
unfolding userinfo_loop
userinfo_loop-text zero taken u e = rw (← e) (simp append_assoc)
userinfo_loop-text (suc fuel) taken u e = elim (Option-cases (index_byte b'@' u.rest)) [
  | inl missing ↦ rw (missing, userinfo_loop, ← e) (simp append_assoc)
  | inr (i, found) ↦
      rw (found, userinfo_loop)
        (userinfo_loop-text fuel (taken ++ (take i u.rest ++ b'@' ∷ []))
            (record { info = taken ++ take i u.rest; found = true; rest = drop (suc i) u.rest })
            (append_assoc taken (take i u.rest) (b'@' ∷ []))
          ∙ (simp append_assoc (ap (λ t. taken ++ t) (index_byte-splits b'@' u.rest i found))))
]

split_userinfo-text : (s : Bytes) → userinfo_text (split_userinfo s) ≡ s
unfolding split_userinfo
split_userinfo-text s = userinfo_loop-text (suc (length s)) [] _ refl

abbrev host_text : HostPort → Bytes
host_text h = host_with_brks h.host h.has_brks ++ (colon h.has_port ++ (h.port ++ h.junk))

split_colon-text : (s : Bytes) → host_text (split_colon s) ≡ s
unfolding split_colon
split_colon-text s = elim (Option-cases (index_byte b':' s)) [
  | inl missing ↦ rw (missing, split_colon) (append-nil s)
  | inr (i, found) ↦ rw (found, split_colon) (simp append-nil (index_byte-splits b':' s i found))
]

brackets-text :
    (host after path : Bytes)
    → at_byte path b':' ≡ false
    → host_text (
        if at_byte (after ++ path) b':'
        then record {
          host = host;
          port = drop 1 after;
          has_brks = true;
          has_port = true;
          junk = [];
        }
        else record { host = host; port = []; has_brks = true; has_port = false; junk = after })
      ≡ b'[' ∷ (host ++ (b']' ∷ after))
brackets-text host [] path h = rw h (simp append-nil)
brackets-text host (x ∷ after) path h = elim (Bool-cases (x == b':')) [
  | inl e ↦ rw e (rw ((nat_beq_iff x b':').0 e) (simp (append_assoc, append-nil)))
  | inr e ↦ rw e (simp (append_assoc, append-nil))
]

index_byte-cons :
    (c x : ℕ) (s : Bytes) (i : ℕ)
    → (x == c) ≡ false
    → index_byte c (x ∷ s) ≡ some i
    → (j : ℕ) × (i ≡ suc j) × (index_byte c s ≡ some j)
unfolding index_byte
index_byte-cons c x s i ne h = elim (Option-cases (index_byte c s)) [
  | inl e ↦ absurd (ground arith)
  | inr (j, e) ↦ (j, ground arith, e)
]

split_brackets-text :
    (t path : Bytes) (k : ℕ)
    → at_byte path b':' ≡ false
    → index_byte b']' t ≡ some k
    → host_text (split_brackets (suc k) (b'[' ∷ t) path) ≡ b'[' ∷ t
unfolding split_brackets
split_brackets-text t path k h found =
    let e : suc k - 1 ≡ k = omega arith in
    rw e (
      brackets-text (take k t) (drop (suc k) t) path h
      ∙ ap (λ s. b'[' ∷ s) (index_byte-splits b']' t k found))

split_host-text :
    (rest path : Bytes) → at_byte path b':' ≡ false → host_text (split_host rest path) ≡ rest
unfolding split_host
split_host-text [] path h = refl
split_host-text (x ∷ t) path h = elim (Option-cases (index_byte b']' (x ∷ t))) [
  | inl missing ↦ rw (missing, split_host) (split_colon-text (x ∷ t))
  | inr (brk, found) ↦ elim (Bool-cases (x == b'[')) [
    | inl open_brk ↦
        let is_open = (nat_beq_iff x b'[').0 open_brk in
        let (k, e, found') = index_byte-cons b']' x t brk (rw is_open) found in
        rw (found, split_host, open_brk, e, is_open) (split_brackets-text t path k h found')
    | inr other ↦ rw (found, split_host, other) (split_colon-text (x ∷ t))
  ]
]

-- The path is empty or begins with a rejected byte.
index_any-stops :
    (s reject : Bytes) (i c : ℕ)
    → index_any s reject ≡ some i
    → at_byte (drop i s) c ≡ true
    → contains reject c ≡ true
unfolding index_any
index_any-stops [] reject i c h stop = cc
index_any-stops (x ∷ s) reject i c h stop = elim (Bool-cases (contains reject x)) [
  | inl here ↦ ground (arith, nat_beq_iff x c)
  | inr there ↦ elim (Option-cases (index_any s reject)) [
    | inl e ↦ ground arith
    | inr (j, e) ↦ ground (arith, index_any-stops s reject j c e)
  ]
]

drop-length : (s : Bytes) → drop (length s) s ≡ []
drop-length [] = refl
drop-length (x ∷ s) = drop-length s

strcspn-stops :
    (s reject : Bytes) (c : ℕ)
    → contains reject c ≡ false
    → at_byte (drop (strcspn s reject) s) c ≡ false
unfolding strcspn
strcspn-stops s reject c other = elim (Option-cases (index_any s reject)) [
  | inl e ↦ rw (e, strcspn, drop-length s)
  | inr (i, e) ↦ rw (e, strcspn) (stops i e (Bool-cases (at_byte (drop i s) c)))
]
  where
    stops :
        (i : ℕ)
        → index_any s reject ≡ some i
        → (at_byte (drop i s) c ≡ true) ⊎ (at_byte (drop i s) c ≡ false)
        → at_byte (drop i s) c ≡ false
    stops i e (inl yes_c) = cc (index_any-stops s reject i c e yes_c)
    stops i e (inr no_c) = no_c

replicate-snoc : (n c : ℕ) (s : Bytes) → replicate n c ++ (c ∷ s) ≡ c ∷ (replicate n c ++ s)
replicate-snoc zero c s = refl
replicate-snoc (suc n) c s = ap (λ t. c ∷ t) (replicate-snoc n c s)

-- The parts when the scheme and `n` slashes are read.
abbrev opened : Bytes → ℕ → Bytes → Parts
opened schema n path = record no_parts {
  schema = schema;
  path = path;
  md = record (no_parts.md) { has_schema = true; slash_num = n };
}

abbrev after_scheme : Bytes → ℕ → Bytes → Bytes
after_scheme schema n rest = schema ++ (codes ":" ++ (replicate n b'/' ++ rest))

glue :
    (a b c d e f path rest authority : Bytes)
    → c ++ (d ++ (e ++ f)) ≡ rest
    → a ++ (b ++ rest) ≡ authority
    → a ++ (b ++ (c ++ (d ++ (e ++ (f ++ path))))) ≡ authority ++ path
glue a b c d e f path rest authority p q = rw (← q, ← p) (simp append_assoc)

split_authority-text :
    (schema : Bytes) (n : ℕ) (path authority : Bytes)
    → at_byte path b':' ≡ false
    → avurl_join (split_authority (opened schema n path) authority)
      ≡ after_scheme schema n (authority ++ path)
unfolding avurl_join split_authority
split_authority-text schema n path [] h = refl
split_authority-text schema n path (x ∷ s) h =
    let u = split_userinfo (x ∷ s) in
    let r = split_host u.rest path in
    ap (after_scheme schema n) (
      glue u.info (at_sign u.found) (host_with_brks r.host r.has_brks) (colon r.has_port) r.port
        r.junk path u.rest (x ∷ s) (split_host-text u.rest path h) (split_userinfo-text (x ∷ s)))

split_path-text :
    (schema : Bytes) (n : ℕ) (rest : Bytes)
    → avurl_join (split_path (opened schema n []) rest) ≡ after_scheme schema n rest
unfolding split_path
split_path-text schema n rest =
    let k = strcspn rest (codes "/?#") in
    split_authority-text schema n (drop k rest) (take k rest)
      (strcspn-stops rest (codes "/?#") b':' refl)
    ∙ ap (after_scheme schema n) (take-append-drop k rest)

second_slash-text :
    (schema : Bytes) (n : ℕ) (rest : Bytes)
    → avurl_join (second_slash (opened schema n []) rest) ≡ after_scheme schema n rest
unfolding second_slash
second_slash-text schema n [] = unfold avurl_join in refl
second_slash-text schema n (c ∷ s) = elim (Bool-cases (c == b'/')) [
  | inr other ↦ rw other (split_path-text schema n (c ∷ s))
  | inl slash ↦ rw (slash, (nat_beq_iff c b'/').0 slash, replicate-snoc) (go s)
]
  where
    go :
        (s : Bytes)
        → avurl_join (
            if is_empty s
            then opened schema (suc n) []
            else split_path (opened schema (suc n) []) s)
          ≡ after_scheme schema (suc n) s
    go [] = unfold avurl_join in refl
    go (c ∷ s) = split_path-text schema (suc n) (c ∷ s)

first_slash-text :
    (schema rest : Bytes)
    → avurl_join (first_slash (opened schema 0 []) rest) ≡ after_scheme schema 0 rest
unfolding first_slash
first_slash-text schema [] = unfold avurl_join in refl
first_slash-text schema (c ∷ s) = elim (Bool-cases (c == b'/')) [
  | inr other ↦ ap avurl_join (rw other) ∙ second_slash-text schema 0 (c ∷ s)
  | inl slash ↦ rw (slash, (nat_beq_iff c b'/').0 slash) (second_slash-text schema 1 s)
]

-- For every byte string, joining what the split returns gives the string back.
pub join-split : (url : Bytes) → avurl_join (avurl_split url) ≡ url
unfolding avurl_split
join-split url = elim (Option-cases (index_byte b':' url)) [
  | inl missing ↦ rw (missing, avurl_split) (unfold avurl_join in refl)
  | inr (i, found) ↦
      rw (found, avurl_split)
        (first_slash-text (take i url) (drop (suc i) url) ∙ index_byte-splits b':' url i found)
]
