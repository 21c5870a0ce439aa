-- ===== src/Policy/Decision.antt =====
-- Which requests src/policy.cpp lets through, described without the order of its tests.
use gtlibcpp.Common.{
  ℕ, ◌^◌, ◌≤◌, ◌<◌, ◌≡◌, ◌≢◌, ◌↔◌, ◌⊎◌, inl, inr, arith, true, false, [], Option, some, none,
  Option-cases, Bytes, codes, equal_iff, is_empty,
}
use gtlibcpp.Result.{ok}
use gtlibcpp.Types.{TargetIdentity, x86, x64}
use gtlibcpp.Policy.Cap
use gtlibcpp.Policy.Data.{
  TargetManifest, MutationRequest, ApprovalToken, matches, has, unknown_bits,
}
use gtlibcpp.Policy.Limiter.{RateLimiter, opened, allow}
use gtlibcpp.Policy.{
  Policy, Readings, find_manifest, deny, authorize_limited, authorize_token, authorize_manifest,
  authorize_with_token,
}

-- The limiter has a slot left for the alias at this time.
abbrev pub HasSlot : ℕ → Bytes → RateLimiter → Type 0
HasSlot now alias l = (opened now (l.windows alias)).count < l.max_per_minute

-- The token is for this request and this target, and the time lies in its window.
pub record IsFresh (now : ℕ) (request : MutationRequest) (token : ApprovalToken) : Type 0 where
  pub same_request : token.request_id ≡ request.request_id
  pub same_target : token.target_alias ≡ request.target_alias
  pub issued : token.issued_at_ms ≤ now
  pub unexpired : now ≤ token.expires_at_ms

abbrev pub TokenHolds : ℕ → MutationRequest → Option ApprovalToken → Type 0
TokenHolds now request none = Unit
TokenHolds now request (some token) = IsFresh now request token

-- What the manifest and the shape of the request must satisfy.
pub record IsGranted (identity : TargetIdentity) (request : MutationRequest) (m : TargetManifest)
    : Type 0 where
  pub matched : matches m identity ≡ true
  pub writable : (has request.capability Cap.write ≡ false) ⊎ (m.allow_write ≡ true)
  pub known : has request.capability unknown_bits ≡ false
  pub concrete : 0 < request.address
  pub sized : 0 < request.size
  pub bounded : request.size ≤ 2 ^ 20
  pub hashed : is_empty request.expected_current_hash ≡ false

allow_iff :
    (now : ℕ) (alias : Bytes) (l : RateLimiter)
    → ((allow now alias l).0 ≡ ok tt) ↔ HasSlot now alias l
unfolding allow
allow_iff now alias l = ground arith

module _ (now : Readings) (identity : TargetIdentity) (request : MutationRequest) where
  limited_iff :
      (p : Policy)
      → ((authorize_limited now identity request p).0 ≡ ok tt)
        ↔ HasSlot now.limiter_ms request.target_alias p.limiter
  unfolding authorize_limited deny
  limited_iff p = ground (arith, allow_iff now.limiter_ms request.target_alias p.limiter)

  token_iff :
      (token : Option ApprovalToken) (p : Policy)
      → ((authorize_token now identity request token p).0 ≡ ok tt) ↔ (
          TokenHolds now.token_ms request token
          × HasSlot now.limiter_ms request.target_alias p.limiter)
  unfolding authorize_token deny
  token_iff none p = (λ h. (tt, (limited_iff p).0 h), λ h. (limited_iff p).1 h.1)
  token_iff (some t) p = ground (
    arith,
    limited_iff p,
    equal_iff t.request_id request.request_id,
    equal_iff t.target_alias request.target_alias,
  )

  manifest_iff :
      (m : TargetManifest) (token : Option ApprovalToken) (p : Policy)
      → ((authorize_manifest now identity request m token p).0 ≡ ok tt) ↔ (
          IsGranted identity request m
          × ((request.preview ≡ true)
              ⊎ ((request.approved ≡ true)
                  × TokenHolds now.token_ms request token
                  × HasSlot now.limiter_ms request.target_alias p.limiter)))
  unfolding authorize_manifest deny
  manifest_iff m token p =
      (λ h. ground (arith, token_iff token p), λ h. ground (arith, token_iff token p))

  pub authorize_exact :
      (token : Option ApprovalToken) (p : Policy)
      → ((authorize_with_token now identity request token p).0 ≡ ok tt) ↔ (
          (p.kill_switch.engaged ≡ false)
          × ((m : TargetManifest) × (find_manifest request.target_alias p.manifests ≡ some m)
              × IsGranted identity request m)
          × ((request.preview ≡ true)
              ⊎ ((request.approved ≡ true)
                  × TokenHolds now.token_ms request token
                  × HasSlot now.limiter_ms request.target_alias p.limiter)))
  unfolding authorize_with_token deny
  authorize_exact token p = (
    λ h. elim (Option-cases (find_manifest request.target_alias p.manifests)) [
      | inl e ↦ absurd (ground arith)
      | inr (m, e) ↦
          let off : p.kill_switch.engaged ≡ false = ground arith in
          let passed : (authorize_manifest now identity request m token p).0 ≡ ok tt =
            ground arith in
          let (granted, rest) = (manifest_iff m token p).0 passed in (off, (m, e, granted), rest)
    ],
    λ h. let passed = (manifest_iff h.1.0 token p).1 (h.1.2, h.2) in ground (arith, passed),
  )

-- `TargetManifest::matches`: there is a process, the path agrees, and so do the image hash, if both
-- sides give one, and the architecture, if the manifest says x86 or x64.
pub matches_exact :
    (m : TargetManifest) (id : TargetIdentity)
    → (matches m id ≡ true) ↔ (
        (0 < id.pid)
        × (id.image_path ≡ m.image_path)
        × ((m.image_sha256 ≡ []) ⊎ (id.image_sha256 ≡ []) ⊎ (id.image_sha256 ≡ m.image_sha256))
        × ((m.architecture ≢ codes "x86") ⊎ (id.architecture ≡ x86))
        × ((m.architecture ≢ codes "x64") ⊎ (id.architecture ≡ x64)))
unfolding matches codes
matches_exact m id =
    let path = equal_iff id.image_path m.image_path in
    let sha = equal_iff id.image_sha256 m.image_sha256 in
    let x86' = equal_iff m.architecture (codes "x86") in
    let x64' = equal_iff m.architecture (codes "x64") in
    (
      λ h. (
        ground arith,
        ground (arith, path),
        ground (arith, path, sha),
        ground (arith, x86'),
        ground (arith, x86', x64'),
      ),
      λ h. ground (arith, path, sha, x86', x64'),
    )
