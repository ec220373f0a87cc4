-- ===== src/Downloader/Counting.antt =====
-- `onDownloadDone` of download.cc: when the loop is told to quit.
use simplev.Prelude.{
  ℕ, zero, suc, ◌≡◌, refl, sym, ap, ◌∙◌, Bool, true, false, leb, arith, if◌then◌else◌,
}
use simplev.Prelude.Int.{ℤ, pos}
use simplev.Downloader.{Downloader, on_download_done, decrement, is_positive, quit}

-- `n` requests are done.
unfoldable pub downloads_done : ℕ → Downloader → Downloader
downloads_done zero d = d
downloads_done (suc n) d = downloads_done n (on_download_done d)

done : ℤ → Downloader → Downloader
done n d = let d' = record d { concurrent = n } in if is_positive n then d' else quit d'

on_download_done-done : (d : Downloader) → on_download_done d ≡ done (decrement d.concurrent) d
unfolding on_download_done done
on_download_done-done d = refl

-- Once told, the loop is not told otherwise.
stays_quit : (n : ℕ) (d : Downloader) → d.has_quit ≡ true → (downloads_done n d).has_quit ≡ true
unfolding downloads_done on_download_done
stays_quit zero d e = e
stays_quit (suc n) d e =
    stays_quit n (on_download_done d) (keeps (is_positive (decrement d.concurrent)))
  where
    keeps :
        (b : Bool)
        → (if b
            then record d { concurrent = decrement d.concurrent }
            else quit (record d { concurrent = decrement d.concurrent })).has_quit
          ≡ true
    keeps true = e
    keeps false = refl

-- While `c + 1` requests are under way and the loop was not told to quit: after `n` calls, one for each
-- request that is done, it was told so exactly if `n` is at least `c + 1`.
pub downloads_done_lem :
    (n c : ℕ) (d : Downloader)
    → d.concurrent ≡ pos (suc c)
    → d.has_quit ≡ false
    → (downloads_done n d).has_quit ≡ leb (suc c) n
unfolding downloads_done done
downloads_done_lem zero c d e fresh = fresh ∙ ground arith
downloads_done_lem (suc n) zero d e fresh =
    let last = on_download_done-done d ∙ ap (λ (z : ℤ). done (decrement z) d) e in
    let told = stays_quit n (on_download_done d) (ap (λ (x : Downloader). x.has_quit) last) in
    let enough : leb 1 (suc n) ≡ true = ground arith in told ∙ sym enough
downloads_done_lem (suc n) (suc c) d e fresh =
    let more = on_download_done-done d ∙ ap (λ (z : ℤ). done (decrement z) d) e in
    let fewer : leb (suc c) n ≡ leb (suc (suc c)) (suc n) = ground arith in
    downloads_done_lem n c (on_download_done d) (ap (λ (x : Downloader). x.concurrent) more)
      (ap (λ (x : Downloader). x.has_quit) more ∙ fresh)
    ∙ fewer
