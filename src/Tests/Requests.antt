-- ===== src/Tests/Requests.antt =====
-- A client and a small log at concrete inputs. JSON values are byte strings here: an array is its bytes,
-- one by one, and an entry is its number.
use sky_zadro_docs.Common.{
  ℕ, zero, suc, ◌+◌, ◌-◌, ◌<◌, le→ltb, List, [], ◌∷◌, length, map, slice, slice_one, get_elem?,
  none, some, ◌≡◌, refl, arith,
}
use sky_zadro_docs.Common.Int.{pos}
use sky_zadro_docs.Errors.{ok, ◌>>◌}
use sky_zadro_docs.Merkle.Hasher.{Bytes}
use sky_zadro_docs.Client.{
  EntryResponse, Json, Network, Request, get_sth_path, get_entries_path, Response, Attempt,
  answered, connection_error, yielded, fetch_range, get_response, get_response_body,
  check_response_status, parse_entries, listed_entries, sized, parse_entry, get_entries,
}
use sky_zadro_docs.Client.Ranges.{Serves, get_entries_complete}
use sky_zadro_docs.Client.Limits.{Within, get_entries_bounded}
use sky_zadro_docs.Client.Guards.{never, again, get_response_body_retries}

abbrev numbers : Json
numbers = record {
  Value = Bytes;
  loads = λ body. ok body;
  field = λ name value. ok value;
  items = λ value. ok (map (λ n. n ∷ []) value);
  number = λ value. ok (length value);
  b64decode = λ value. ok value;
  b64encode = λ bytes. bytes;
}

abbrev entry : ℕ → EntryResponse
entry n = record { leaf_input = n ∷ []; extra_data = n ∷ [] }

abbrev log : List EntryResponse
log = entry 0 ∷ entry 1 ∷ entry 2 ∷ []

-- One entry to a request, whatever the range.
abbrev reply : Request → Response
reply (get_entries_path first last) = record { status_code = 200; content = first ∷ [] }
reply other = record { status_code = 404; content = [] }

abbrev meagre : Network
meagre = record { State = ℕ; get = λ uri s. (answered (reply uri), s + 1) }

entry_at : (first : ℕ) → first < 3 → get_elem? log first ≡ some (entry first)
entry_at zero p = refl
entry_at (suc zero) p = refl
entry_at (suc (suc zero)) p = refl
entry_at (suc (suc (suc n))) p = absurd (omega arith)

meagre-Serves : Serves numbers meagre 2 log
unfolding fetch_range get_response_body get_response check_response_status parse_entries
    listed_entries sized parse_entry
meagre-Serves = record {
  count = λ first last s. 1;
  after = λ first last s. s + 1;
  count_pos = λ first last s. omega arith;
  count_most = λ first last s p. omega arith;
  answer = λ first last s p inside.
      rw
        (
          le→ltb (last + 1 - first) 1 (omega arith),
          slice_one first log (entry_at first (omega arith)),
        )
        refl;
}

get_entries_complete_example :
    (get_entries numbers meagre 2 (pos 0) (pos 2) 0 1000 7).0 ≡ yielded (slice 0 3 log) none
get_entries_complete_example =
    get_entries_complete numbers meagre 2 log meagre-Serves 0 2 0 1000 7 (omega arith) (omega arith)
      (omega arith)

get_entries_bounded_example :
    Within numbers meagre 2 2 (get_entries numbers meagre 2 (pos 1) (pos 2) 1 1000 7).0
get_entries_bounded_example = get_entries_bounded numbers meagre 2 1 2 1 1000 7 (omega arith)

-- So many connections are refused as the state tells.
abbrev refuse : ℕ → Request → Attempt × ℕ
refuse zero uri = (answered (reply uri), zero)
refuse (suc n) uri = (connection_error, n)

abbrev shy : Network
shy = record { State = ℕ; get = λ uri s. refuse s uri }

get_response_body_retries_example :
    get_response_body shy 2 get_sth_path 2 ≡ (check_response_status 404 >> ok [], 0)
get_response_body_retries_example =
    get_response_body_retries shy 2 2 get_sth_path 2 0 0 (reply get_sth_path)
      (again 1 2 1 0 refl (again 0 1 0 0 refl (never 0))) refl (omega arith)
