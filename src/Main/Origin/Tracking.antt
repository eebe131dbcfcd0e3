-- ===== src/Main/Origin/Tracking.antt =====
-- The record of what happens to prices, kept by each call of the cache and of Kraken.
use go_exercise.Base.{
  ℕ, suc, ◌*◌, ◌≤◌, ◌≡◌, refl, ap, subst, ◌∙◌, some, List, [], ◌∷◌, ◌++◌, arith, inl, inr,
}
use go_exercise.Base.Int.{pos, time_add, second}
use go_exercise.Base.Text.{Text}
use go_exercise.Base.Dict.{Dict}
use go_exercise.Base.Float64.{Float64}
use go_exercise.Base.Result.{Result, ok, err}
use go_exercise.Cache.Memory
use go_exercise.Cache.Memory.{effective_ttl}
use go_exercise.Cache.Memory.Entries.{find-get, find-set, get-found, config-get, config-set}
use go_exercise.Cache.Memory.Api.{memory_api, api_get, api_set}
use go_exercise.Cache.Entry.{CacheConfig}
use go_exercise.Cache.Legacy.{float64, legacy_get, legacy_set, legacy_get_exact}
use go_exercise.Kraken.{Transport, TickerError}
use go_exercise.Ltp.Tracked.{IsTracked}
use go_exercise.Main.Wiring.{Prices}
use go_exercise.Main.Origin.{Note, answered, cached, Answered, Cached, note_answer, recorded}
use go_exercise.Main.Origin

module _ {Num : Type 0} where
  Answered-append :
      (sym : Text) (v : Num) (news h : List (Note Num))
      → Answered sym v news
      → Answered sym v (news ++ h)
  Answered-append sym v [] h a = absurd a
  Answered-append sym v (answered prices ∷ news) h (inl a) = inl a
  Answered-append sym v (answered prices ∷ news) h (inr a) = inr (Answered-append sym v news h a)
  Answered-append sym v (cached sym' v' n ∷ news) h a = Answered-append sym v news h a

  Cached-Answered :
      (sym : Text) (v : Num) (n : ℕ) (h : List (Note Num)) → Cached sym v n h → Answered sym v h
  Cached-Answered sym v n [] c = absurd c
  Cached-Answered sym v n (answered prices ∷ h) c = inr (Cached-Answered sym v n h c)
  Cached-Answered sym v n (cached sym' v' n' ∷ h) (inl (e, e', _, a)) =
      subst (λ k. Answered k v h) e (subst (λ x. Answered sym' x h) e' a)
  Cached-Answered sym v n (cached sym' v' n' ∷ h) (inr c) = Cached-Answered sym v n h c

module _ {fl : Float64} {E : Type 0} (t : Transport fl E) (Other : Type 0) (kraken_url : Text)
    (clock : ℕ → ℕ) (config : CacheConfig) (h0 : List (Note fl.Num)) (start : ℕ) where
  abbrev State : Type 0
  State = (recorded t Other kraken_url clock).State

  abbrev kept_until : ℕ → ℕ
  kept_until = Origin.kept_until t Other kraken_url clock config h0 start

  abbrev IsCurrent : Text → fl.Num → State → Type 0
  IsCurrent = Origin.IsCurrent t Other kraken_url clock config h0 start

  abbrev IsNoted : Prices fl.Num Other → List (Note fl.Num) → Type 0
  IsNoted = Origin.IsNoted t Other kraken_url clock config h0 start

  abbrev Holds : State → Type 0
  Holds = Origin.Holds t Other kraken_url clock config h0 start

  note_answer-IsNoted :
      (c : Prices fl.Num Other) (answer : Result (TickerError E) (Dict fl.Num))
      (h : List (Note fl.Num))
      → IsNoted c h
      → IsNoted c (note_answer answer h)
  unfolding note_answer
  note_answer-IsNoted c (ok prices) h old = old
  note_answer-IsNoted c (err e) h old = old

  note_answer-news :
      (answer : Result (TickerError E) (Dict fl.Num)) (h : List (Note fl.Num))
      → ((news : List (Note fl.Num)) × (h ≡ news ++ h0))
      → (news : List (Note fl.Num)) × (note_answer answer h ≡ news ++ h0)
  unfolding note_answer
  note_answer-news (ok prices) h (news, e) = (answered prices ∷ news, ap (◌∷◌ (answered prices)) e)
  note_answer-news (err e') h (news, e) = (news, e)

  note_answer-IsCurrent :
      (answer : Result (TickerError E) (Dict fl.Num)) (sym : Text) (v : fl.Num)
      (h : List (Note fl.Num)) (c : Prices fl.Num Other) (w w' : t.State)
      → IsCurrent sym v (h, (c, w))
      → IsCurrent sym v (note_answer answer h, (c, w'))
  unfolding note_answer
  note_answer-IsCurrent (err e) sym v h c w w' x = x
  note_answer-IsCurrent (ok prices) sym v h c w w' (inl (news, e, a)) =
      inl (answered prices ∷ news, ap (◌∷◌ (answered prices)) e, inr a)
  note_answer-IsCurrent (ok prices) sym v h c w w' (inr x) = inr x

  IsCurrent-Answered :
      (sym : Text) (v : fl.Num) (h : List (Note fl.Num)) (c : Prices fl.Num Other) (w : t.State)
      → IsCurrent sym v (h, (c, w))
      → Answered sym v h
  IsCurrent-Answered sym v h c w (inl (news, e, a)) = rw e (Answered-append sym v news h0 a)
  IsCurrent-Answered sym v h c w (inr (n, r, there, _, _, _)) = Cached-Answered sym v n h there

  abbrev looked_up : Text → Prices fl.Num Other → Prices fl.Num Other
  looked_up sym c = (legacy_get (memory_api clock) sym c).0

  found-IsCurrent :
      (sym : Text) (v : fl.Num) (h : List (Note fl.Num)) (c : Prices fl.Num Other) (w : t.State)
      → Holds (h, (c, w))
      → (legacy_get (memory_api clock) sym c).1 ≡ some v
      → IsCurrent sym v (h, (looked_up sym c, w))
  unfolding legacy_get api_get
  found-IsCurrent sym v h c w (config_eq, later, news, noted) found =
      let hit = (legacy_get_exact (memory_api clock) sym c v).0 found in
      let value : (Memory.get c.cache sym (clock c.readings)).1 ≡ some (float64 v) = ground arith in
      let (e, there, e_eq, alive) = get-found c.cache sym (clock c.readings) (float64 v) value in
      let (v', n, v_eq, stored, ends) = noted sym e there in
      let same : v' ≡ v = ground arith in
      inr (
        n,
        c.readings,
        subst (λ x. Cached sym x n h) same stored,
        later,
        omega arith,
        subst (λ x. clock c.readings ≤ x) ends alive,
      )

  -- A lookup leaves some of the entries, and reads the clock once.
  looked_up-Holds :
      (sym : Text) (h : List (Note fl.Num)) (c : Prices fl.Num Other) (w : t.State)
      → Holds (h, (c, w))
      → Holds (h, (looked_up sym c, w))
  unfolding legacy_get api_get
  looked_up-Holds sym h c w (config_eq, later, news, noted) = (
    config-get c.cache sym (clock c.readings) ∙ config_eq,
    omega arith,
    news,
    λ j e there. noted j e (find-get c.cache sym (clock c.readings) j there),
  )

  looked_up-IsCurrent :
      (sym j : Text) (v : fl.Num) (h : List (Note fl.Num)) (c : Prices fl.Num Other) (w : t.State)
      → IsCurrent j v (h, (c, w))
      → IsCurrent j v (h, (looked_up sym c, w))
  unfolding legacy_get api_get
  looked_up-IsCurrent sym j v h c w (inl x) = inl x
  looked_up-IsCurrent sym j v h c w (inr (n, r, there, from, to, alive)) =
      inr (n, r, there, from, omega arith, alive)

  abbrev put_in : Text → fl.Num → Prices fl.Num Other → Prices fl.Num Other
  put_in sym v c = legacy_set (memory_api clock) sym v c

  put_in-IsCurrent :
      (sym : Text) (p : fl.Num) (j : Text) (v : fl.Num) (h : List (Note fl.Num))
      (c : Prices fl.Num Other) (w : t.State)
      → IsCurrent j v (h, (c, w))
      → IsCurrent j v (cached sym p c.readings ∷ h, (put_in sym p c, w))
  unfolding legacy_set api_set
  put_in-IsCurrent sym p j v h c w (inl (news, e, a)) =
      inl (cached sym p c.readings ∷ news, ap (◌∷◌ (cached sym p c.readings)) e, a)
  put_in-IsCurrent sym p j v h c w (inr (n, r, there, from, to, alive)) =
      inr (n, r, inr there, from, omega arith, alive)

  put_in-Holds :
      (sym : Text) (v : fl.Num) (h : List (Note fl.Num)) (c : Prices fl.Num Other) (w : t.State)
      → Holds (h, (c, w))
      → IsCurrent sym v (h, (c, w))
      → Holds (cached sym v c.readings ∷ h, (put_in sym v c, w))
  unfolding legacy_set api_set
  put_in-Holds sym v h c w (config_eq, later, (news, e), noted) known = (
    config-set c.cache sym (float64 v) (pos (60 * second)) (clock c.readings)
          (clock (suc c.readings))
        ∙ config_eq,
    omega arith,
    (cached sym v c.readings ∷ news, ap (◌∷◌ (cached sym v c.readings)) e),
    λ j e there.
        elim (find-set c.cache sym (float64 v) (pos (60 * second)) (clock c.readings)
          (clock (suc c.readings)) j there) [
            | inl (key, value, ends) ↦ (
              v,
              c.readings,
              value,
              inl (key, refl, refl, IsCurrent-Answered sym v h c w known),
              ends
                  ∙ ap (λ k. time_add (clock c.readings) (effective_ttl k (pos (60 * second))))
                      config_eq,
            )
            | inr old ↦
                let (v', n, value, stored, ends) = noted j e old in (v', n, value, inr stored, ends)
          ],
  )

  pub recorded-IsTracked : IsTracked (recorded t Other kraken_url clock) Holds IsCurrent
  unfolding note_answer
  recorded-IsTracked = record {
    got = λ sym (h, (c, w)) x. looked_up-Holds sym h c w x;
    got_from = λ sym v (h, (c, w)) x e. found-IsCurrent sym v h c w x e;
    got_keeps = λ sym (h, (c, w)) j v x. looked_up-IsCurrent sym j v h c w x;
    asked = λ syms (h, (c, w)) (config_eq, later, news, noted).
        (config_eq, later, note_answer-news _ h news, note_answer-IsNoted c _ h noted);
    asked_from = λ syms (h, (c, w)) prices j v (config_eq, later, (news, same), noted) e there.
        (inl (
          answered prices ∷ news,
          ap (λ a. note_answer a h) e ∙ ap (◌∷◌ (answered prices)) same,
          inl there,
        ));
    asked_keeps = λ syms (h, (c, w)) j v x. note_answer-IsCurrent _ j v h c w w x;
    stored = λ sym v (h, (c, w)) x y. put_in-Holds sym v h c w x y;
    stored_keeps = λ sym p (h, (c, w)) j v x. put_in-IsCurrent sym p j v h c w x;
  }
