-- ===== src/Profiles/Offered.antt =====
-- Every profile that the driver offers is one that the GPU decodes in that profile's own format.
use nvidia_vaapi_driver.Prelude.{
  ◌≡◌, inl, inr, refl, List, [], ◌∷◌, ◌++◌, Bool, true, false, if◌then◌else◌, Bool-cases, arith,
}
use nvidia_vaapi_driver.Profiles.Types.{Profile, profile_none, success, operation_failed}
use nvidia_vaapi_driver.Profiles.{
  Gpu, va_to_cu_codec, decode_format, offer, compact, candidates, base_profiles, deep_profiles,
  full_chroma_profiles, deep_full_chroma_profiles, query_config_profiles2, is_no_codec,
}

abbrev pub All : (Profile → Type 0) → List Profile → Type 0
All P [] = Unit
All P (p ∷ ps) = P p × All P ps

module _ (P : Profile → Type 0) where
  All-append : (xs ys : List Profile) → All P xs → All P ys → All P (xs ++ ys)
  All-append [] ys h k = k
  All-append (x ∷ xs) ys h k = (h.0, All-append xs ys h.1 k)

  All-offer : (b : Bool) (xs : List Profile) → (b ≡ true → All P xs) → All P (offer b xs)
  unfolding offer
  All-offer true xs h = h refl
  All-offer false xs h = tt

  join :
      (xs : List Profile) (b : Bool) (ys : List Profile)
      → All P xs
      → (b ≡ true → All P ys)
      → All P (xs ++ offer b ys)
  join xs b ys h k = All-append xs (offer b ys) h (All-offer b ys k)

codec_apart : ¬ (true ≡ false)
codec_apart e = ground arith

-- The GPU decodes the format of `p`.
abbrev pub IsDecoded : Gpu → Profile → Type 0
IsDecoded gpu p = gpu (va_to_cu_codec p) (decode_format p).0 (decode_format p).1 ≡ true

-- What is offered for certain: some codec of the driver has the profile and the GPU decodes it.
abbrev pub IsOffered : Gpu → Profile → Type 0
IsOffered gpu p = (is_no_codec (va_to_cu_codec p) ≡ false) × IsDecoded gpu p

abbrev IsCandidate : Gpu → Profile → Type 0
IsCandidate gpu p = is_no_codec (va_to_cu_codec p) ≡ false → IsDecoded gpu p

module _ (gpu : Gpu) where
  base-IsCandidate : All (IsCandidate gpu) (base_profiles gpu)
  base-IsCandidate =
      let P = IsCandidate gpu in
      join P _ _ _
        (join P _ _ _
          (join P _ _ _
            (join P _ _ _
              (join P _ _ _
                (join P _ _ _
                  (join P _ _ _
                    (join P _ _ _
                      (join P _ _ _
                        (join P _ _ _ (All-offer P _ _ (λ h. (λ e. h, (λ e. h, tt))))
                          (λ h. (λ e. h, (λ e. h, (λ e. h, tt)))))
                        (λ h. (λ e. h, (λ e. h, (λ e. h, tt)))))
                      (λ h. (λ e. h, (λ e. h, (λ e. h, tt)))))
                    (λ h. (λ e. h, tt)))
                  (λ h. (λ e. absurd (codec_apart e), tt)))
                (λ h. (λ e. absurd (codec_apart e), tt)))
              (λ h. (λ e. h, tt)))
            (λ h. (λ e. h, tt)))
          (λ h. (λ e. h, tt)))
        (λ h. (λ e. h, tt))

  deep-IsCandidate : All (IsCandidate gpu) (deep_profiles gpu)
  deep-IsCandidate =
      let P = IsCandidate gpu in
      join P _ _ _ (join P _ _ _ (All-offer P _ _ (λ h. (λ e. h, tt))) (λ h. (λ e. h, tt)))
        (λ h. (λ e. h, tt))

  full_chroma-IsCandidate : All (IsCandidate gpu) (full_chroma_profiles gpu)
  full_chroma-IsCandidate =
      let P = IsCandidate gpu in
      join P _ _ _ (join P _ _ _ (All-offer P _ _ (λ h. (λ e. h, tt))) (λ h. (λ e. h, tt)))
        (λ h. (λ e. h, tt))

  deep_full_chroma-IsCandidate : All (IsCandidate gpu) (deep_full_chroma_profiles gpu)
  deep_full_chroma-IsCandidate =
      let P = IsCandidate gpu in
      join P _ _ _ (join P _ _ _ (All-offer P _ _ (λ h. (λ e. h, tt))) (λ h. (λ e. h, tt)))
        (λ h. (λ e. h, tt))

  candidates-IsCandidate : (s16 s444 : Bool) → All (IsCandidate gpu) (candidates gpu s16 s444)
  candidates-IsCandidate s16 s444 =
      let P = IsCandidate gpu in
      join P _ s444 _
        (join P (base_profiles gpu) s16 (deep_profiles gpu) base-IsCandidate
          (λ h. deep-IsCandidate))
        (λ h. join P _ s16 _ full_chroma-IsCandidate (λ k. deep_full_chroma-IsCandidate))

  compact-IsOffered :
      (kept rest : List Profile)
      → All (IsOffered gpu) kept
      → All (IsCandidate gpu) rest
      → All (IsOffered gpu) (compact kept rest)
  unfolding compact
  compact-IsOffered kept [] h k = h
  compact-IsOffered kept (p ∷ rest) h k = elim (Bool-cases (is_no_codec (va_to_cu_codec p))) [
    | inl e ↦ rw e (compact-IsOffered kept rest h k.1)
    | inr e ↦ rw e (
        compact-IsOffered (kept ++ p ∷ []) rest
          (All-append (IsOffered gpu) kept (p ∷ []) h ((e, k.0 e), tt)) k.1)
  ]

-- The list that a successful query leaves: profiles that the GPU decodes, and the end mark.
abbrev pub Listed : Gpu → List Profile → Type 0
Listed gpu listed =
    (offered : List Profile) × (listed ≡ offered ++ profile_none ∷ []) × All (IsOffered gpu) offered

-- Where the CUDA context is entered, each profile that nvQueryConfigProfiles2 lists before the
-- closing VAProfileNone is one for which a codec of the driver exists and of which the GPU
-- decodes exactly the bit depth and the chroma format that profileDecodeTuple gives it; the
-- status is an error only where the context is not left.
pub query_config_profiles2-Listed :
    (pop_ok : Bool) (gpu : Gpu) (s16 s444 : Bool)
    → let r = query_config_profiles2 true pop_ok gpu s16 s444 in
      (r.0 ≡ (if pop_ok then success else operation_failed)) × Listed gpu r.1
unfolding query_config_profiles2
query_config_profiles2-Listed pop_ok gpu s16 s444 =
    let offered =
      compact-IsOffered gpu [] (candidates gpu s16 s444) tt (candidates-IsCandidate gpu s16 s444) in
    (refl, (compact [] (candidates gpu s16 s444), refl, offered))
