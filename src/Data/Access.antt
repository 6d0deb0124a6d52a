-- ===== src/Data/Access.antt =====
-- afl/data/access.cpp: conversion of a value to a string or an integer.
use afl.Base.{none, some, List, [], ◌∷◌, ◌++◌, if◌then◌else◌}
use afl.Base.Int.{ℤ, pos}
use afl.Base.Str.{Str, bytes}
use afl.Except.{Result, ok, err, ◌>>=◌, remote_error, invalid_data, invalid_number}
use afl.Text.Number.{format_signed, str_to_integer}
use afl.Data.Value.{Value, null, string, integer, boolean, error, vector, hash, Items, nil, cons}

-- `Access::toInteger`. The empty string counts as zero.
abbrev pub string_to_integer : Str → Result ℤ
string_to_integer [] = ok (pos 0)
string_to_integer (c ∷ s) = elim (str_to_integer (c ∷ s)) [
  | none ↦ err (invalid_data invalid_number)
  | some n ↦ ok n
]

unfoldable pub to_integer : Value → Result ℤ
to_integer null = ok (pos 0)
to_integer (string s) = string_to_integer s
to_integer (integer n) = ok n
to_integer (boolean b) = ok (if b then pos 1 else pos 0)
to_integer (error source msg) = err (remote_error source msg)
to_integer (vector vs) = err (invalid_data invalid_number)
to_integer (hash fs) = err (invalid_data invalid_number)

-- `Access::toString`: the elements of a vector are joined by commas.
mutual
  visit_string : Value → Result Str
  visit_string null = ok []
  visit_string (string s) = ok s
  visit_string (integer n) = ok (format_signed n)
  visit_string (boolean b) = ok (if b then bytes "true" else bytes "false")
  visit_string (error source msg) = err (remote_error source msg)
  visit_string (vector vs) = visit_first vs
  visit_string (hash fs) = ok (bytes "<hash>")

  visit_first : Items → Result Str
  visit_first nil = ok []
  visit_first (cons v vs) = do s ← visit_string v; t ← visit_rest vs; ok (s ++ t)

  visit_rest : Items → Result Str
  visit_rest nil = ok []
  visit_rest (cons v vs) = do s ← visit_string v; t ← visit_rest vs; ok (b',' ∷ s ++ t)

unfoldable pub to_string : Value → Result Str
unfolding visit_string
to_string v = visit_string v

-- `getArraySize` and `operator[]`: what is no vector has no elements.
unfoldable pub array_items : Value → Items
array_items (vector vs) = vs
array_items _ = nil

unfoldable pub each_string : Items → Result (List Str)
unfolding to_string
each_string nil = ok []
each_string (cons v vs) = do s ← to_string v; rest ← each_string vs; ok (s ∷ rest)

unfoldable pub each_integer : Items → Result (List ℤ)
unfolding to_integer
each_integer nil = ok []
each_integer (cons v vs) = do n ← to_integer v; rest ← each_integer vs; ok (n ∷ rest)

-- `toStringList` and `toIntegerList`, on a list that starts empty.
abbrev pub to_string_list : Value → Result (List Str)
to_string_list v = each_string (array_items v)

abbrev pub to_integer_list : Value → Result (List ℤ)
to_integer_list v = each_integer (array_items v)
