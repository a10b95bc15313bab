-- ===== src/Wrapper/Index/Calls.antt =====
-- Any sequence of calls on indices, from a program that has none.
use goxz.Base.{subst, ℕ, ◌≡◌, ◌≢◌, refl, ap, ◌∙◌, sym, Bool, true, false, Option, none, some}
use goxz.Base.Int.{ℤ}
use goxz.Go.{Err, lib}
use goxz.Liblzma.Structs.{CFlags}
use goxz.Wrapper.Error.{new_error}
use goxz.Wrapper.Index.{
  IndexLib, World, no_index, adopt, release, new_index, end_index, new_stream_decoder,
  decoder_stores, update, append, stream_flags, stream_padding, cat, dup, content,
}
use goxz.Wrapper.Index.Ownership.{
  IsOwned, no_index-IsOwned, adopt-IsOwned, update-IsOwned, release-IsOwned, decoder_stores-IsOwned,
}

module _ (api : IndexLib) where
  open api use {CIndex, Coder}

  abbrev W : Type 0
  W = World api

  pub data Call : W → W → Type 0 where
    create : {w : W} (refused : Bool) → Call w (new_index api refused w).0
    ends : {w w' : W} (i : ℕ) → end_index api w i ≡ some w' → Call w w'
    decodes :
        {w w' : W} (i memlimit : ℕ) (coder : Option Coder) (err : Option Err)
        → new_stream_decoder api w i memlimit ≡ some (w', (coder, err))
        → Call w w'
    stores : {w : W} (i : ℕ) (c : CIndex) → Call w (decoder_stores api w i c)
    appends : {w : W} (i : ℕ) (unpad uncomp : ℤ) → Call w (append api w i unpad uncomp).0
    flags : {w : W} (i : ℕ) (fl : CFlags) → Call w (stream_flags api w i fl).0
    pads : {w : W} (i : ℕ) (padding : ℤ) → Call w (stream_padding api w i padding).0
    cats :
        {w w' : W} (dest src : ℕ) (err : Option Err)
        → cat api w dest src ≡ some (w', err)
        → Call w w'
    dups : {w : W} (i : ℕ) → Call w (dup api w i).0

  -- A finalizer calls End, at any time.
  pub data Calls : W → W → Type 0 where
    done : {w : W} → Calls w w
    step : {w v u : W} → Calls w v → Call v u → Calls w u

  new_index-IsOwned :
      (refused : Bool) (w : W) → IsOwned api w → IsOwned api (new_index api refused w).0
  unfolding new_index
  new_index-IsOwned true w v = v
  new_index-IsOwned false w v = adopt-IsOwned api w api.empty_index v

  -- A call that returns leaves a world whose structures are owned.
  abbrev Returns : {X : Type 0} → Option (W × X) → Type 0
  Returns {X} m = (w' : W) × (x : X) × (m ≡ some (w', x)) × IsOwned api w'

  decoder_made :
      (w' : W) (e : Option Err) (coder : Coder)
      → IsOwned api w'
      → Returns (elim e as (λ _. Option (W × (Option Coder × Option Err))) [
        | some x ↦ some (w', (none, some x))
        | none ↦ some (w', (some coder, none))
      ])
  decoder_made w' none coder v = (w', (some coder, none), refl, v)
  decoder_made w' (some x) coder v = (w', (none, some x), refl, v)

  new_stream_decoder-Returns :
      (w : W) (i memlimit : ℕ) → IsOwned api w → Returns (new_stream_decoder api w i memlimit)
  unfolding new_stream_decoder end_index
  new_stream_decoder-Returns w i memlimit v =
      let (w', h, v') = release-IsOwned api w i v in
      let (ret, coder) = api.lzma_index_decoder memlimit in
      rw (new_stream_decoder, end_index, h) (decoder_made w' (new_error api.constants ret) coder v')

  cat_done :
      (w : W) (m : W) (src : ℕ) (e : Option Err)
      → IsOwned api w
      → IsOwned api m
      → Returns (elim e as (λ _. Option (W × Option Err)) [
        | some x ↦ some (w, some x)
        | none ↦ elim (release api m src) as (λ _. Option (W × Option Err)) [
          | none ↦ none
          | some w' ↦ some (w', none)
        ]
      ])
  cat_done w m src (some x) v u = (w, some x, refl, v)
  cat_done w m src none v u = let (w', h, v') = release-IsOwned api m src u in (w', none, rw h, v')

  cat-Returns : (w : W) (dest src : ℕ) → IsOwned api w → Returns (cat api w dest src)
  unfolding cat
  cat-Returns w dest src v =
      let r = api.lzma_index_cat (content api w dest) (content api w src) in
      cat_done w (update api w dest r).0 src (new_error api.constants r.0) v
        (update-IsOwned api w dest r v)

  end_index-Returns :
      (w : W) (i : ℕ) → IsOwned api w → (w' : W) × (end_index api w i ≡ some w') × IsOwned api w'
  unfolding end_index
  end_index-Returns w i v = release-IsOwned api w i v

  -- What a call returns is what it was shown to return.
  same-IsOwned :
      {X : Type 0} (m : Option (W × X)) (w' : W) (x : X)
      → Returns m
      → m ≡ some (w', x)
      → IsOwned api w'
  same-IsOwned m w' x (u, y, h, v) e =
      let q : ◌≡◌ {A = W} u w' =
        ap (λ z. elim z as (λ _. W) [ some p ↦ p.0 | none ↦ w' ]) (sym h ∙ e) in
      subst (IsOwned api) q v

  dup_made :
      (w : W) (c : Option CIndex)
      → IsOwned api w
      → IsOwned api
          (elim c as (λ _. W × Option Err) [
            | none ↦ (w, some (lib api.constants.lzma_mem_error))
            | some d ↦ (adopt api w d, none)
          ]).0
  dup_made w none v = v
  dup_made w (some d) v = adopt-IsOwned api w d v

  dup-IsOwned : (w : W) (i : ℕ) → IsOwned api w → IsOwned api (dup api w i).0
  unfolding dup
  dup-IsOwned w i v = dup_made w (api.lzma_index_dup (content api w i)) v

  Call-IsOwned : (w w' : W) → Call w w' → IsOwned api w → IsOwned api w'
  unfolding append stream_flags stream_padding
  Call-IsOwned _ _ (create {w} refused) v = new_index-IsOwned refused w v
  Call-IsOwned _ _ (ends {w} {w'} i e) v =
      let (u, h, k) = end_index-Returns w i v in
      let q : ◌≡◌ {A = W} u w' =
        ap (λ z. elim z as (λ _. W) [ some p ↦ p | none ↦ w' ]) (sym h ∙ e) in
      subst (IsOwned api) q k
  Call-IsOwned _ _ (decodes {w} {w'} i memlimit coder err e) v =
      same-IsOwned _ w' (coder, err) (new_stream_decoder-Returns w i memlimit v) e
  Call-IsOwned _ _ (stores {w} i c) v = decoder_stores-IsOwned api w i c v
  Call-IsOwned _ _ (appends {w} i x y) v = update-IsOwned api w i _ v
  Call-IsOwned _ _ (flags {w} i fl) v = update-IsOwned api w i _ v
  Call-IsOwned _ _ (pads {w} i p) v = update-IsOwned api w i _ v
  Call-IsOwned _ _ (cats {w} {w'} dest src err e) v =
      same-IsOwned _ w' err (cat-Returns w dest src v) e
  Call-IsOwned _ _ (dups {w} i) v = dup-IsOwned w i v

  Calls-IsOwned : {w w' : W} → Calls w w' → IsOwned api w → IsOwned api w'
  Calls-IsOwned done h = h
  Calls-IsOwned (step {w} {v} {u} cs c) h = Call-IsOwned v u c (Calls-IsOwned cs h)

  -- Whatever calls a program has made on its indices, no End, NewStreamDecoder or Cat frees a
  -- structure twice.
  pub no_double_free :
      (w : W) (i memlimit dest src : ℕ)
      → Calls (no_index api) w
      → (end_index api w i ≢ none)
        × (new_stream_decoder api w i memlimit ≢ none)
        × (cat api w dest src ≢ none)
  no_double_free w i memlimit dest src c =
      let v = Calls-IsOwned c (no_index-IsOwned api) in
      let (w1, h1, _) = end_index-Returns w i v in
      let (w2, x2, h2, _) = new_stream_decoder-Returns w i memlimit v in
      let (w3, x3, h3, _) = cat-Returns w dest src v in
      (λ n. absurd (cc), λ n. absurd (cc), λ n. absurd (cc))
