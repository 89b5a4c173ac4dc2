-- ===== src/Stream/Examples.antt =====
-- The theorems about the stream at work on two rows that come in three responses.
use google_cloud_cpp_spanner.Prelude.{
  ℕ, zero, suc, ◌<◌, ◌≡◌, ◌↔◌, refl, sym, ap, ◌∙◌, List, [], ◌∷◌, Bool, true, false, none, some,
  arith, drop,
}
use google_cloud_cpp_spanner.Status.{StatusCode, status, ok_status, value, is_grpc_permanent}
use google_cloud_cpp_spanner.Retry.Policy.{RetryPolicy, BackoffPolicy, IsLimited}
use google_cloud_cpp_spanner.Stream.Value.{Value, text, list, nil, cons, null, boolean}
use google_cloud_cpp_spanner.Stream.MergeChunk.{merge_chunk}
use google_cloud_cpp_spanner.Stream.Chunking.{Splits, merge_chunk_iff}
use google_cloud_cpp_spanner.Stream.Source.{Field, PartialResultSet, Source, next_row}
use google_cloud_cpp_spanner.Stream.Rows.{join}
use google_cloud_cpp_spanner.Stream.NextRow.{Delivers, next_row-Delivers}
use google_cloud_cpp_spanner.Stream.Delivery.{Pends}
use google_cloud_cpp_spanner.Stream.Resume.{Reader, new_resume, read_all}
use google_cloud_cpp_spanner.Stream.Resumption.{IsPart, Collects, resume-Collects}

abbrev first_half : Value
first_half = list (cons (text (1 ∷ 2 ∷ [])) (cons (text (3 ∷ [])) nil))

abbrev second_half : Value
second_half = list (cons (text (4 ∷ [])) (cons (boolean true) nil))

abbrev whole : Value
whole = list (cons (text (1 ∷ 2 ∷ [])) (cons (text (3 ∷ 4 ∷ [])) (cons (boolean true) nil)))

merge_chunk_iff_example :
    (merge_chunk first_half second_half ≡ value whole) ↔ Splits first_half second_half whole
merge_chunk_iff_example = merge_chunk_iff first_half second_half whole

abbrev fields : List Field
fields = record { name = "id"; type = 1 } ∷ record { name = "tags"; type = 2 } ∷ []

abbrev response : List Value → Bool → List ℕ → PartialResultSet
response values chunked token = record {
  metadata = none;
  stats = none;
  values = values;
  chunked_value = chunked;
  resume_token = token;
}

-- The first response has been read; its last value was the first half of a value.
abbrev opened : Source
opened = record {
  metadata = some fields;
  stats = none;
  buffer = text (9 ∷ []) ∷ [];
  chunk = some first_half;
  columns = "id" ∷ "tags" ∷ [];
  finished = false;
}

abbrev responses : List PartialResultSet
responses =
    response (second_half ∷ text (8 ∷ []) ∷ []) true (1 ∷ [])
    ∷ response (text (7 ∷ []) ∷ null ∷ []) false (2 ∷ [])
    ∷ []

abbrev sent : List Value
sent = text (9 ∷ []) ∷ whole ∷ text (8 ∷ 7 ∷ []) ∷ null ∷ []

opened-Pends : Pends opened responses sent
unfolding join merge_chunk
opened-Pends = refl

next_row-Delivers_example : Delivers fields sent (next_row ok_status opened responses)
next_row-Delivers_example =
    next_row-Delivers fields sent ok_status responses opened (omega arith) refl
      (record {
        ready = (refl, refl);
        unfinished = refl;
        dense = ((λ e. omega arith), ((λ e. omega arith), tt));
      })
      opened-Pends

-- A service that breaks off every stream after one response, but for the last.
abbrev after : List ℕ → List PartialResultSet
after [] = responses
after (zero ∷ _) = []
after (suc zero ∷ _) = drop 1 responses
after (suc (suc _) ∷ _) = []

abbrev cut : List PartialResultSet → Reader
cut [] = record { responses = []; finish = ok_status }
cut (r ∷ rest) = record {
  responses = r ∷ [];
  finish = status StatusCode.unavailable "connection lost";
}

abbrev factory : ℕ → List ℕ → Reader
factory n token = cut (after token)

cut-reads : (left : List PartialResultSet) → IsPart left (cut left)
cut-reads [] = ([], refl, λ ok. refl)
cut-reads (r ∷ rest) = (rest, refl, λ ok. absurd (grind arith))

abbrev after_head : List PartialResultSet → List PartialResultSet
after_head [] = []
after_head (r ∷ rest) = after r.resume_token

after-tokens :
    (token : List ℕ) (x : PartialResultSet) (rest : List PartialResultSet)
    → after token ≡ x ∷ rest
    → after x.resume_token ≡ rest
after-tokens [] x rest e = ap after_head (sym e) ∙ ap (drop 1) e
after-tokens (zero ∷ _) x rest e = absurd (grind arith)
after-tokens (suc zero ∷ _) x rest e = ap after_head (sym e) ∙ ap (drop 1) e
after-tokens (suc (suc _) ∷ _) x rest e = absurd (grind arith)

-- How many failures there can still be.
abbrev counted_down : ℕ → Bool → ℕ × Bool
counted_down n true = (n, false)
counted_down zero false = (zero, false)
counted_down (suc n) false = (n, true)

abbrev few_tries : RetryPolicy ℕ
few_tries = record {
  is_exhausted = λ n. false;
  on_failure = λ n s. counted_down n (is_grpc_permanent s);
}

counted_down-lt : (n m : ℕ) (b : Bool) → counted_down n b ≡ (m, true) → m < n
counted_down-lt n m true h = absurd (grind arith)
counted_down-lt zero m false h = absurd (grind arith)
counted_down-lt (suc n) m false h = grind arith

few_tries-IsLimited : IsLimited few_tries.on_failure (λ n. n)
few_tries-IsLimited p q s h = counted_down-lt p q (is_grpc_permanent s) h

abbrev at_once : BackoffPolicy ℕ
at_once = record { on_completion = λ b. (b, 0) }

resume-Collects_example :
    Collects
      (after [])
      (read_all few_tries at_once factory true 4 3 (new_resume few_tries at_once factory true 3 0))
resume-Collects_example =
    resume-Collects few_tries at_once factory true after
      (record { reads = λ n token. cut-reads (after token); tokens = after-tokens }) (λ n. n)
      few_tries-IsLimited (λ p q s h. refl) 4 3 3 0 (omega arith) (omega arith)
