-- ===== src/Fp/Params.antt =====
-- The four fields' parameters, and that they meet what the arithmetic relies on.
use libprio_rs.Common.{ℕ, refl, [], ◌∷◌, arith}
use libprio_rs.Fp.{FieldParameters}
use libprio_rs.Fp.Element.{IsParameters}

abbrev pub max_roots : ℕ
max_roots = 20

abbrev pub fp32 : FieldParameters
fp32 = record {
  p = 4293918721;
  mu = 17302828673139736575;
  r2 = 1676699750;
  g = 1074114499;
  num_roots = 20;
  bit_mask = 4294967295;
  roots =
      2564090464 ∷ 1729828257 ∷ 306605458 ∷ 2294308040 ∷ 1648889905 ∷ 57098624 ∷ 2788941825
      ∷ 2779858277 ∷ 368200145 ∷ 2760217336 ∷ 594450960 ∷ 4255832533 ∷ 1372848488 ∷ 721329415
      ∷ 3873251478 ∷ 1134002069 ∷ 7138597 ∷ 2004587313 ∷ 2989350643 ∷ 725214187 ∷ 1074114499 ∷ [];
}

pub fp32-IsParameters : IsParameters fp32
fp32-IsParameters = record {
  montgomery_form = record { p_pos = omega arith; p_room = omega arith; mu_inverse = refl };
  r2_lt = omega arith;
  r2_square = refl;
}

abbrev pub fp64 : FieldParameters
fp64 = record {
  p = 18446744069414584321;
  mu = 18446744069414584319;
  r2 = 4294967295;
  g = 959634606461954525;
  num_roots = 32;
  bit_mask = 18446744073709551615;
  roots =
      18446744065119617025 ∷ 4294967296 ∷ 18446462594437939201 ∷ 72057594037927936
      ∷ 1152921504338411520 ∷ 16384 ∷ 18446743519658770561 ∷ 18446735273187346433
      ∷ 6519596376689022014 ∷ 9996039020351967275 ∷ 15452408553935940313 ∷ 15855629130643256449
      ∷ 8619522106083987867 ∷ 13036116919365988132 ∷ 1033106119984023956 ∷ 16593078884869787648
      ∷ 16980581328500004402 ∷ 12245796497946355434 ∷ 8709441440702798460 ∷ 8611358103550827629
      ∷ 8120528636261052110 ∷ [];
}

pub fp64-IsParameters : IsParameters fp64
fp64-IsParameters = record {
  montgomery_form = record { p_pos = omega arith; p_room = omega arith; mu_inverse = refl };
  r2_lt = omega arith;
  r2_square = refl;
}

abbrev pub fp96 : FieldParameters
fp96 = record {
  p = 79228148845226978974766202881;
  mu = 18446744073709551615;
  r2 = 69162923446439011319006025217;
  g = 11329412859948499305522312170;
  num_roots = 64;
  bit_mask = 79228162514264337593543950335;
  roots =
      10128756682736510015896859 ∷ 79218020088544242464750306022 ∷ 9188608122889034248261485869
      ∷ 10170869429050723924726258983 ∷ 36379376833245035199462139324
      ∷ 20898601228930800484072244511 ∷ 2845758484723985721473442509 ∷ 71302585629145191158180162028
      ∷ 76552499132904394167108068662 ∷ 48651998692455360626769616967
      ∷ 36570983454832589044179852640 ∷ 72716740645782532591407744342
      ∷ 73296872548531908678227377531 ∷ 14831293153408122430659535205
      ∷ 61540280632476003580389854060 ∷ 42256269782069635955059793151
      ∷ 51673352890110285959979141934 ∷ 43102967204983216507957944322 ∷ 3990455111079735553382399289
      ∷ 68042997008257313116433801954 ∷ 44344622755749285146379045633 ∷ [];
}

pub fp96-IsParameters : IsParameters fp96
fp96-IsParameters = record {
  montgomery_form = record { p_pos = omega arith; p_room = omega arith; mu_inverse = refl };
  r2_lt = omega arith;
  r2_square = refl;
}

abbrev pub fp128 : FieldParameters
fp128 = record {
  p = 340282366920938462946865773367900766209;
  mu = 18446744073709551615;
  r2 = 403909908237944342183153;
  g = 107630958476043550189608038630704257141;
  num_roots = 66;
  bit_mask = 340282366920938463463374607431768211455;
  roots =
      516508834063867445247 ∷ 340282366920938462430356939304033320962
      ∷ 129526470195413442198896969089616959958 ∷ 169031622068548287099117778531474117974
      ∷ 81612939378432101163303892927894236156 ∷ 122401220764524715189382260548353967708
      ∷ 199453575871863981432000940507837456190 ∷ 272368408887745135168960576051472383806
      ∷ 24863773656265022616993900367764287617 ∷ 257882853788779266319541142124730662203
      ∷ 323732363244658673145040701829006542956 ∷ 57532865270871759635014308631881743007
      ∷ 149571414409418047452773959687184934208 ∷ 177018931070866797456844925926211239962
      ∷ 268896136799800963964749917185333891349 ∷ 244556960591856046954834420512544511831
      ∷ 118945432085812380213390062516065622346 ∷ 202007153998709986841225284843501908420
      ∷ 332677126194796691532164818746739771387 ∷ 258279638927684931537542082169183965856
      ∷ 148221243758794364405224645520862378432 ∷ [];
}

pub fp128-IsParameters : IsParameters fp128
fp128-IsParameters = record {
  montgomery_form = record { p_pos = omega arith; p_room = omega arith; mu_inverse = refl };
  r2_lt = omega arith;
  r2_square = refl;
}
