-- ===== src/Log/Cache.antt =====
-- The cache blocks of src/pinusdb/commitlog/commit_log_file.cpp: they are the end of what has been
-- written to the file, whichever blocks have been given up.
use pinusdb.Prelude.{
  ℕ, ◌+◌, ◌-◌, ◌≤◌, ◌≡◌, refl, sym, ap, ◌∙◌, Bool, leb, leb→le, ltb→ge, ◌&&◌, List, [], ◌∷◌, ◌++◌,
  arith, length, take, drop, ltb, Bool-cases, inl, inr, true, false, length-append, drop-drop,
  drop-append_le, drop-append_all, drop_all, drop_nil, take_nil, take-drop-append, if◌then◌else◌,
}
use mathlib.Core.Path.{subst}
use mathlib.Core.List.{append_assoc, append-nil}
use pinusdb.Log.{CacheBlock, cache_start, copy_caches, erase_front, cache_cnt}

-- The blocks follow each other from `off` to `end_`.
abbrev pub IsChain : ℕ → List CacheBlock → ℕ → Type 0
IsChain off [] end_ = off ≡ end_
IsChain off (c ∷ cs) end_ = (c.cache_offset ≡ off) × IsChain (off + length c.cache) cs end_

abbrev pub cached_bytes : List CacheBlock → List ℕ
cached_bytes [] = []
cached_bytes (c ∷ cs) = c.cache ++ cached_bytes cs

-- The blocks follow each other up to the end of the bytes written, and hold the last of these.
abbrev pub IsCache : List CacheBlock → List ℕ → Type 0
IsCache cs written =
    IsChain (cache_start cs (length written)) cs (length written)
    × (cached_bytes cs ≡ drop (cache_start cs (length written)) written)

chain_start : (off : ℕ) (cs : List CacheBlock) (e : ℕ) → IsChain off cs e → cache_start cs e ≡ off
chain_start off [] e c = sym c
chain_start off (b ∷ cs) e (h, c) = h

pub chain_length :
    (off : ℕ) (cs : List CacheBlock) (e : ℕ) → IsChain off cs e → off + length (cached_bytes cs) ≡ e
chain_length off [] e c = omega arith
chain_length off (b ∷ cs) e (h, c) =
    omega
      (arith, length-append b.cache (cached_bytes cs), chain_length (off + length b.cache) cs e c)

push-IsChain :
    (off : ℕ) (cs : List CacheBlock) (e : ℕ) (b : CacheBlock)
    → b.cache_offset ≡ e
    → IsChain off cs e
    → IsChain off (cs ++ (b ∷ [])) (e + length b.cache)
push-IsChain off [] e b h c = (h ∙ sym c, ap (λ m. m + length b.cache) c)
push-IsChain off (a ∷ cs) e b h (g, c) = (g, push-IsChain (off + length a.cache) cs e b h c)

bytes_push :
    (cs : List CacheBlock) (b : CacheBlock)
    → cached_bytes (cs ++ (b ∷ [])) ≡ cached_bytes cs ++ b.cache
bytes_push [] b = append-nil b.cache
bytes_push (c ∷ cs) b =
    ap (λ l. c.cache ++ l) (bytes_push cs b) ∙ sym (append_assoc c.cache (cached_bytes cs) b.cache)

-- Giving up the first block.
erase_front-IsCache :
    (cs : List CacheBlock) (w : List ℕ) → IsCache cs w → IsCache (erase_front cs) w
erase_front-IsCache [] w k = k
erase_front-IsCache (b ∷ cs) w ((h, c), e) =
    let at = sym (chain_start (b.cache_offset + length b.cache) cs (length w) c) in
    let rest =
      sym (drop-append_all b.cache (cached_bytes cs))
      ∙ ap (drop (length b.cache)) e
      ∙ drop-drop (length b.cache) b.cache_offset w in
    (subst (λ m. IsChain m cs (length w)) at c, rest ∙ ap (λ m. drop m w) at)

-- A new block behind the others.
push-IsCache :
    (cs : List CacheBlock) (w : List ℕ) (b : CacheBlock)
    → b.cache_offset ≡ length w
    → IsCache cs w
    → IsCache (cs ++ (b ∷ [])) (w ++ b.cache)
push-IsCache [] w b h k =
    let len : b.cache_offset + length b.cache ≡ length (w ++ b.cache) =
      omega (arith, length-append w b.cache, h) in
    (
      (refl, len),
      append-nil b.cache
          ∙ sym (drop-append_all w b.cache)
          ∙ ap (λ m. drop m (w ++ b.cache)) (sym h),
    )
push-IsCache (a ∷ cs) w b h ((g, c), e) =
    let chain = push-IsChain (a.cache_offset + length a.cache) cs (length w) b h c in
    let le : a.cache_offset ≤ length w =
      omega (arith, chain_length (a.cache_offset + length a.cache) cs (length w) c) in
    (
      (
        refl,
        subst (IsChain (a.cache_offset + length a.cache) (cs ++ (b ∷ [])))
            (sym (length-append w b.cache)) chain,
      ),
      bytes_push (a ∷ cs) b
          ∙ ap (λ l. l ++ b.cache) e
          ∙ sym (drop-append_le a.cache_offset w b.cache le),
    )

-- What FlushBuffer makes of the blocks.
pub pushed-IsCache :
    (cs : List CacheBlock) (w : List ℕ) (b : CacheBlock)
    → b.cache_offset ≡ length w
    → IsCache cs w
    → IsCache
        ((if ltb (length cs) cache_cnt then cs else erase_front cs) ++ (b ∷ []))
        (w ++ b.cache)
pushed-IsCache cs w b h k = elim (Bool-cases (ltb (length cs) cache_cnt)) [
  | inl y ↦ rw y (push-IsCache cs w b h k)
  | inr n ↦ rw n (push-IsCache (erase_front cs) w b h (erase_front-IsCache cs w k))
]

-- Where the loop breaks off nothing is left to copy.
break_lem :
    (here : Bool) (left n : ℕ) (xs : List ℕ)
    → (if here && leb left n then [] else take (left - n) xs) ≡ take (left - n) xs
break_lem false left n xs = refl
break_lem true left n xs = elim (Bool-cases (leb left n)) [
  | inl y ↦ let e : 0 ≡ left - n = omega (arith, leb→le left n y) in rw y (ap (λ m. take m xs) e)
  | inr n ↦ rw n refl
]

part_lem :
    (c : CacheBlock) (offset left : ℕ)
    → (if ltb offset (c.cache_offset + length c.cache)
        then take left (drop (offset - c.cache_offset) c.cache)
        else [])
      ≡ take left (drop (offset - c.cache_offset) c.cache)
part_lem c offset left = elim (Bool-cases (ltb offset (c.cache_offset + length c.cache))) [
  | inl y ↦ rw y refl
  | inr n ↦
      let past = ltb→ge offset (c.cache_offset + length c.cache) n in
      let e = drop_all (offset - c.cache_offset) c.cache (omega (arith, past)) in
      rw n (sym (ap (take left) e ∙ take_nil left))
]

-- What the loop of Read copies from the blocks.
pub copy_caches_lem :
    (off : ℕ) (cs : List CacheBlock) (e offset left : ℕ)
    → IsChain off cs e
    → copy_caches cs offset left ≡ take left (drop (offset - off) (cached_bytes cs))
copy_caches_lem off [] e offset left k =
    sym (ap (take left) (drop_nil (offset - off)) ∙ take_nil left)
copy_caches_lem off (c ∷ cs) e offset left (h, k) =
    let part = take left (drop (offset - off) c.cache) in
    let is_part : _ ≡ part =
      part_lem c offset left ∙ ap (λ m. take left (drop (offset - m) c.cache)) h in
    let m = left - length part in
    let here = ltb offset (c.cache_offset + length c.cache) in
    let place : offset - (off + length c.cache) ≡ offset - off - length c.cache = omega arith in
    let rest =
      copy_caches_lem (off + length c.cache) cs e offset m k
      ∙ ap (λ n. take m (drop n (cached_bytes cs))) place in
    ap
      (λ l.
        l ++ (if here && leb left (length l) then [] else copy_caches cs offset (left - length l)))
      is_part
    ∙ ap (λ l. part ++ (if here && leb left (length part) then [] else l)) rest
    ∙ ap (λ l. part ++ l)
        (break_lem here left (length part) (drop (offset - off - length c.cache) (cached_bytes cs)))
    ∙ sym (take-drop-append left (offset - off) c.cache (cached_bytes cs))
